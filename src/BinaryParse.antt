-- ===== src/BinaryParse.antt =====
-- gitdiff/binary.go: the binary fragments of a file. `strconv.ParseInt` with base 10 is a parameter
-- that gives none for an error, and so is `inflate`: what `ReadAll` gives of a zlib reader over
-- the bytes, or none where the reader is not made, cannot be read or does not close.
pub mod Line
pub mod RoundTrip
pub mod Fragments
pub mod Sound
use go_gitdiff.Base.{
  ℕ, zero, suc, ◌+◌, ◌-◌, ◌*◌, ◌/◌, ◌%◌, Bool, true, false, not, ◌&&◌, ◌||◌, Option, none, some,
  List, [], ◌∷◌, ◌++◌, ◌⊎◌, inl, inr, Bytes, codes, length, take, drop, get_or, ltb, leb, ◌==◌,
  equal, if◌then◌else◌,
}
use go_gitdiff.Base.Int.{ℤ, pos}
use go_gitdiff.Base.Strings.{has_prefix, has_suffix, cut, trim_last}
use go_gitdiff.Errors.{Error, eof}
use go_gitdiff.Base85.{DecodeError, base85_decode}
use go_gitdiff.Fragment.{differs}
use go_gitdiff.BinaryApply.{BinaryPatchMethod, patch_delta, patch_literal, BinaryFragment}
use go_gitdiff.Apply.{File}
use go_gitdiff.Parser.{
  StringReader, Parser, ParseError, read_error, out_of_fuel, Parsed, parsed, failed, error_at, next,
  next_or_end,
}

-- `isBinaryNoDataMarker`
unfoldable pub is_binary_no_data_marker : Bytes → Bool
is_binary_no_data_marker line =
    if has_suffix (codes " differ\n") line
    then has_prefix (codes "Binary files ") line || has_prefix (codes "Files ") line
    else false

-- The cases of `ParseBinaryMarker`: whether there is data, if the line is a marker.
unfoldable pub marker_data : Bytes → Option Bool
unfolding is_binary_no_data_marker
marker_data line =
    if equal line (codes "GIT binary patch\n")
    then some true
    else if is_binary_no_data_marker line
    then some false
    else none

-- The switch over the first part of a header.
unfoldable pub method_named : Bytes → Option BinaryPatchMethod
method_named s =
    if equal s (codes "delta")
    then some patch_delta
    else if equal s (codes "literal")
    then some patch_literal
    else none

pub method_of_parts : Option (Bytes × Bytes) → Option (BinaryPatchMethod × Bytes)
method_of_parts none = none
method_of_parts (some (name, size)) = elim (method_named name) [
  | none ↦ none
  | some m ↦ some (m, size)
]

-- The method of a header and the text of its size.
unfoldable pub method_of : Bytes → Option (BinaryPatchMethod × Bytes)
unfolding method_of_parts method_named
method_of line = method_of_parts (cut (codes " ") (trim_last b'\n' line))

-- The number of bytes that the first character of a data line gives.
unfoldable pub byte_count : ℕ → Option ℕ
byte_count c =
    if leb b'A' c && leb c b'Z'
    then some (c - b'A' + 1)
    else if leb b'a' c && leb c b'z'
    then some (c - b'a' + 27)
    else none

-- What is decoded, unless there is an error, or the format of one.
pub decoded : Bytes × Option DecodeError → Bytes ⊎ Bytes
decoded (out, some e) = inr (codes "binary patch: %v")
decoded (out, none) = inl out

-- The bytes of `seq`, by the length that the line gives.
pub counted_data : Bytes → Option ℕ → Bytes ⊎ Bytes
counted_data seq none = inr (codes "binary patch: invalid length byte")
counted_data seq (some n) =
    if ltb (length seq / 5 * 4) n || ltb n (length seq / 5 * 4 - 3)
    then inr (codes "binary patch: incorrect byte count")
    else decoded (base85_decode n seq)

-- The body of the loop of `ParseBinaryChunk` up to `Next`: the data of a line, or an error's format.
unfoldable pub line_data : Bytes → Bytes ⊎ Bytes
unfolding counted_data decoded byte_count
line_data line =
    if ltb (length line) 7 || not ((length line - 2) % 5 == 0)
    then inr (codes "binary patch: corrupt data line")
    else counted_data (take (length line - 2) (drop 1 line)) (byte_count (get_or line 0 0))

module _ (parse_int : Bytes → Option ℤ) (inflate : Bytes → Option Bytes) where
  pub check_size : BinaryFragment → Option Bytes → Option BinaryFragment
  check_size frag none = none
  check_size frag (some content) =
      if differs (length content) frag.size then none else some (record frag { content = content })

  -- `inflateBinaryChunk`, whose errors are told apart in their text alone.
  unfoldable pub inflate_binary_chunk : BinaryFragment → Bytes → Option BinaryFragment
  unfolding check_size
  inflate_binary_chunk frag content = check_size frag (inflate content)

  module _ {R : Type 0} (read : StringReader R) where
    -- `ParseBinaryMarker`: `isBinary` and `hasData`.
    pub take_marker : Parser R → Option Bool → Parser R × Parsed (Bool × Bool)
    take_marker p none = (p, parsed (false, false))
    take_marker p (some has_data) = next_or_end read p (true, has_data)

    unfoldable pub parse_binary_marker : Parser R → Parser R × Parsed (Bool × Bool)
    unfolding take_marker marker_data
    parse_binary_marker p = take_marker p (marker_data p.line0)

    pub take_size :
        Parser R → BinaryPatchMethod → Option ℤ → Parser R × Parsed (Option BinaryFragment)
    take_size p m none = (p, failed (error_at p (pos 0) (codes "binary patch: invalid size: %v")))
    take_size p m (some size) =
        next_or_end read p (some (record { method = m; size = size; content = [] }))

    pub take_method :
        Parser R → Option (BinaryPatchMethod × Bytes) → Parser R × Parsed (Option BinaryFragment)
    take_method p none = (p, parsed none)
    take_method p (some (m, size)) = take_size p m (parse_int size)

    -- `ParseBinaryFragmentHeader`; no fragment stands for nil.
    unfoldable pub parse_binary_fragment_header :
        Parser R → Parser R × Parsed (Option BinaryFragment)
    unfolding take_method take_size method_of
    parse_binary_fragment_header p = take_method p (method_of p.line0)

    -- What follows the `Next` behind a data line, with `content` read.
    pub after_data :
        (Parser R → Bytes → Parser R × Parsed Bytes)
        → Bytes
        → Parser R × Option Error
        → Parser R × Parsed Bytes
    after_data go content (p, none) = go p content
    after_data go content (p, some eof) =
        (p, failed (error_at p (pos 0) (codes "binary patch: unexpected EOF")))
    after_data go content (p, some e) = (p, failed (read_error e))

    pub take_data :
        (Parser R → Bytes → Parser R × Parsed Bytes)
        → Parser R
        → Bytes
        → Bytes ⊎ Bytes
        → Parser R × Parsed Bytes
    take_data go p content (inr format) = (p, failed (error_at p (pos 0) format))
    take_data go p content (inl more) = after_data go (content ++ more) (next read p)

    -- The loop of `ParseBinaryChunk`, with fuel.
    pub data_loop : ℕ → Parser R → Bytes → Parser R × Parsed Bytes
    data_loop zero p content = (p, failed out_of_fuel)
    data_loop (suc fuel) p content =
        if equal p.line0 (codes "\n")
        then (p, parsed content)
        else take_data (data_loop fuel) p content (line_data p.line0)

    pub inflated : Parser R → Option BinaryFragment → Parser R × Parsed BinaryFragment
    inflated p none = (p, failed (error_at p (pos 0) (codes "binary patch: %v")))
    inflated p (some frag) = next_or_end read p frag

    pub after_data_loop :
        BinaryFragment → Parser R × Parsed Bytes → Parser R × Parsed BinaryFragment
    after_data_loop frag (p, failed e) = (p, failed e)
    after_data_loop frag (p, parsed content) = inflated p (inflate_binary_chunk frag content)

    -- `ParseBinaryChunk`, which gives the fragment that it fills.
    unfoldable pub parse_binary_chunk :
        ℕ → Parser R → BinaryFragment → Parser R × Parsed BinaryFragment
    unfolding after_data_loop inflated data_loop take_data after_data inflate_binary_chunk
    parse_binary_chunk fuel p frag = after_data_loop frag (data_loop fuel p [])

    -- What `ParseBinaryFragments` gives: the parser, the file, a number of fragments and the error.
    abbrev pub Outcome : Type 0
    Outcome = Parser R × File × ℕ × Option ParseError

    pub set_reverse : File → Parser R × Parsed BinaryFragment → Outcome
    set_reverse f (p, failed e) = (p, f, 1, some e)
    set_reverse f (p, parsed b) = (p, record f { reverse_binary_fragment = some b }, 1, none)

    pub take_reverse : ℕ → File → Parser R × Parsed (Option BinaryFragment) → Outcome
    take_reverse fuel f (p, failed e) = (p, f, 1, some e)
    take_reverse fuel f (p, parsed none) = (p, f, 1, none)
    take_reverse fuel f (p, parsed (some frag)) = set_reverse f (parse_binary_chunk fuel p frag)

    pub set_forward : ℕ → File → Parser R × Parsed BinaryFragment → Outcome
    set_forward fuel f (p, failed e) = (p, f, 0, some e)
    set_forward fuel f (p, parsed b) =
        take_reverse fuel (record f { binary_fragment = some b }) (parse_binary_fragment_header p)

    pub take_forward : ℕ → File → Parser R × Parsed (Option BinaryFragment) → Outcome
    take_forward fuel f (p, failed e) = (p, f, 0, some e)
    take_forward fuel f (p, parsed none) =
        (p, f, 0, some (error_at p (pos 0) (codes "missing data for binary patch")))
    take_forward fuel f (p, parsed (some frag)) =
        set_forward fuel f (parse_binary_chunk fuel p frag)

    pub take_binary : ℕ → File → Parser R × Parsed (Bool × Bool) → Outcome
    take_binary fuel f (p, failed e) = (p, f, 0, some e)
    take_binary fuel f (p, parsed (false, has_data)) = (p, f, 0, none)
    take_binary fuel f (p, parsed (true, false)) = (p, record f { is_binary = true }, 0, none)
    take_binary fuel f (p, parsed (true, true)) =
        take_forward fuel (record f { is_binary = true }) (parse_binary_fragment_header p)

    -- `ParseBinaryFragments`, with fuel for the loop of a chunk.
    unfoldable pub parse_binary_fragments : ℕ → Parser R → File → Outcome
    unfolding take_binary take_forward set_forward take_reverse set_reverse
    parse_binary_fragments fuel p f = take_binary fuel f (parse_binary_marker p)
