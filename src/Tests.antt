-- ===== src/Tests.antt =====
-- Runs of the model on small inputs, and the theorems at inputs that meet their hypotheses.
use mathlib.Core.List.Perm
use mathlib.Core.List.{Pairwise, not-mem-nil}
use go_gitdiff.Base.{
  leb, take, if◌then◌else◌, ap, inl, inr, ◌%◌, ◌/◌, ◌*◌, ◌^◌, ◌≤◌, ◌≡◌, ◌≢◌, ◌⊎◌, ◌↔◌, refl, true,
  false, none, some, List, [], ◌∷◌, ◌++◌, Bytes, codes, length, All, arith, equal,
}
use go_gitdiff.Base.Int.{pos}
use go_gitdiff.Errors.{short_write, stuck, plain, apply_in_progress, applier_closed, apply_error}
use go_gitdiff.Io.{Writer, copy_from, is_len, copy_end}
use go_gitdiff.Io.Copy.{WriteFailed, copy_from_lem}
use go_gitdiff.Io.Laws.{
  reader_of, reader_of-ReadsAt, reader_of-quiet, reader_of-ne-stuck, buffer_writer,
  buffer_writer-Appends, is_len_lem,
}
use go_gitdiff.Base85.{base85_encode, encode_word, word_of, encode_tail, base85_decode, base85_len}
use go_gitdiff.Base85.Encode.{base85_decode-base85_encode, length-base85_encode}
use go_gitdiff.Base85.Accept.{IsLetter, base85_decode_accepts}
use go_gitdiff.Delta.{signed64, read_size, apply_delta}
use go_gitdiff.Delta.Size.{encode_size, read_size-encode_size}
use go_gitdiff.Delta.Encode.{Instr, insert, copy, encode_instrs, expand_all}
use go_gitdiff.Delta.Instr.{Stops, apply_delta-encode_instrs}
use go_gitdiff.Delta.Run.{apply_delta-ne-stuck}
use go_gitdiff.Delta.Sound.{apply_delta_sizes}
use go_gitdiff.BinaryApply.{
  BinaryFragment, patch_delta, patch_literal, new_binary_applier, apply_binary, close_binary,
}
use go_gitdiff.BinaryApply.Once.{apply_binary_once}
use go_gitdiff.Fragment.{TextFragment, op_context, op_delete, op_add, validate, no_eol}
use go_gitdiff.Fragment.Consistent.{IsConsistent, validate-IsConsistent}
use go_gitdiff.TextApply.{
  TextApplier, new_text_applier, apply_when, apply_checked, apply_fragment, frag_start, span,
  apply_valid, apply_preimage, change_lines, finish_fragment, apply_lines, apply_text_line,
  match_line, copy_leading, leftover, close, copy_lines_from, copy_lines, copy_lines_end, resume,
}
use go_gitdiff.TextApply.Lines.{lines_of, lines_of-ReadsLines}
use go_gitdiff.TextApply.Sound.{Applied, apply_fragment-Applied}
use go_gitdiff.TextApply.Rest.{close_sound}
use go_gitdiff.Format.{quoted_name, quote_byte, format_fragment, format_header}
use go_gitdiff.Format.Quote.{Printable, quoted_name-Printable}
use go_gitdiff.Apply.{File, Sorts, apply}
use go_gitdiff.Apply.Patched.{Match, apply-patched}
use go_gitdiff.PatchIdentity.{
  parse_patch_identity, split_identity, split_at_sign, index_byte, scan_back, scan_forward,
  ends_with, choose_name, has_email_byte, strip_comment, normalize_space, unquote_pairs, is_space,
  identity_string, PatchIdentity,
}
use go_gitdiff.PatchIdentity.Normal.{tidy}
use go_gitdiff.PatchIdentity.Scan.{IsNameByte, IsEmailByte}
use go_gitdiff.PatchIdentity.RoundTrip.{
  parse_patch_identity-identity_string, parse_patch_identity_address,
}
use go_gitdiff.Base.Strings.{trim_last}

encode_hello : base85_encode (codes "hello") ≡ codes "Xk~0{ZvX%Q"
unfolding base85_encode encode_word word_of encode_tail
encode_hello = refl

base85_decode-base85_encode_example :
    base85_decode 11 (base85_encode (codes "hello world")) ≡ (codes "hello world", none)
base85_decode-base85_encode_example =
    base85_decode-base85_encode (codes "hello world") (omega arith)

length-base85_encode_example : length (base85_encode (codes "hello")) ≡ base85_len 5
length-base85_encode_example = length-base85_encode (codes "hello")

base85_decode_accepts_example :
    ((base85_decode 4 (codes "Xk~0{")).1 ≡ none
      ↔ (All IsLetter (codes "Xk~0{") × (5 % 5 ≡ 0) × (4 ≤ 5 / 5 * 4)))
    × ((base85_decode 4 (codes "Xk~0{")).1 ≡ none → length (base85_decode 4 (codes "Xk~0{")).0 ≡ 4)
base85_decode_accepts_example = base85_decode_accepts 4 (codes "Xk~0{")

abbrev source : Bytes
source = codes "one\ntwo\nthree\n"

abbrev source_lines : List Bytes
source_lines = codes "one\n" ∷ codes "two\n" ∷ codes "three\n" ∷ []

is_len_lem_example : is_len (reader_of source) (pos 14) ≡ (true, none)
is_len_lem_example = is_len_lem (reader_of source) source 14 (reader_of-ReadsAt source)

copied :
    copy_from buffer_writer (reader_of source) 20 (codes "> ") 4
    ≡ (codes "> two\nthree\n", 10, none)
unfolding copy_from copy_end
copied = refl

-- A writer with no room for more than two bytes.
abbrev narrow_writer : Writer Bytes
narrow_writer w b =
    (w ++ take 2 b, length (take 2 b), if leb (length b) 2 then none else some short_write)

copy_fails : copy_from narrow_writer (reader_of source) 20 [] 4 ≡ (codes "tw", 2, some short_write)
unfolding copy_from copy_end
copy_fails = refl

copy_from_lem_example :
    let r = copy_from buffer_writer (reader_of source) 20 (codes "> ") 4 in
    ((r.0 ≡ codes "> two\nthree\n") × (r.1 ≡ 10) × (r.2 ≡ none))
    ⊎ WriteFailed buffer_writer (λ w. w) source (codes "> ") 0 4 r
copy_from_lem_example =
    copy_from_lem buffer_writer (reader_of source) (λ w. w) source buffer_writer-Appends
      (reader_of-ReadsAt source) 20 (codes "> ") 4 (omega arith)

read_size-encode_size_example : read_size (encode_size 9 300 ++ 7 ∷ []) ≡ (300, 7 ∷ [])
read_size-encode_size_example = read_size-encode_size 300 (7 ∷ []) (omega arith)

abbrev instrs : List Instr
instrs = copy 4 4 ∷ insert (codes "and ") ∷ copy 0 3 ∷ []

abbrev delta : Bytes
delta =
    encode_size 9 (length source)
    ++ (encode_size 9 (length (expand_all source instrs)) ++ encode_instrs instrs)

-- This writer and this reader report no error there, so the delta applies.
delta-applies :
    ((apply_delta buffer_writer (reader_of source) [] delta).1 ≡ none)
    × ((apply_delta buffer_writer (reader_of source) [] delta).0 ≡ codes "two\nand one")
delta-applies =
    elim (apply_delta-encode_instrs buffer_writer (reader_of source) (λ w. w) source
      buffer_writer-Appends (reader_of-ReadsAt source) [] instrs (omega arith) (omega arith)
      (omega arith)) [
        | inl applied ↦ applied
        | inr (before, insert b, later, v, parts, written, (n, e, failed, same)) ↦
            cc (ap (λ r. r.2) failed)
        | inr (before, copy off size, later, v, parts, written, inl (n, e, failed, same)) ↦
            cc (ap (λ r. r.2) failed)
        | inr (before, copy off size, later, v, parts, written, inr (ends, failed, still, same)) ↦
            cc (ap (λ r. r.1) (reader_of-quiet source size off ends), ap (λ r. r.1) failed)
      ]

apply_delta-encode_instrs_example :
    let r = apply_delta buffer_writer (reader_of source) [] delta in
    ((r.1 ≡ none) × (r.0 ≡ codes "two\nand one"))
    ⊎ Stops buffer_writer
        (reader_of source)
        (λ w. w)
        source
        buffer_writer-Appends
        (reader_of-ReadsAt source)
        []
        instrs
        r
apply_delta-encode_instrs_example =
    apply_delta-encode_instrs buffer_writer (reader_of source) (λ w. w) source buffer_writer-Appends
      (reader_of-ReadsAt source) [] instrs (omega arith) (omega arith) (omega arith)

apply_delta-ne-stuck_example :
    (apply_delta buffer_writer (reader_of source) [] (14 ∷ 1 ∷ 0 ∷ [])).1 ≢ some stuck
apply_delta-ne-stuck_example =
    apply_delta-ne-stuck buffer_writer (reader_of source)
      ((λ w b. (λ e. cc)), reader_of-ne-stuck source) [] (14 ∷ 1 ∷ 0 ∷ [])

apply_delta_sizes_example :
    (signed64 (read_size delta).0 ≡ pos 14)
    × ((out : Bytes) × ((apply_delta buffer_writer (reader_of source) [] delta).0 ≡ out)
        × (length out % 2 ^ 64 ≡ (read_size (read_size delta).1).0 % 2 ^ 64))
apply_delta_sizes_example =
    apply_delta_sizes buffer_writer (reader_of source) (λ w. w) source buffer_writer-Appends
      (reader_of-ReadsAt source) [] delta delta-applies.0

abbrev hunk : TextFragment
hunk = record {
  comment = [];
  old_position = pos 1;
  old_lines = pos 3;
  new_position = pos 1;
  new_lines = pos 3;
  lines_added = pos 1;
  lines_deleted = pos 1;
  leading_context = pos 1;
  trailing_context = pos 1;
  lines =
      record { op = op_context; line = codes "one\n" }
      ∷ record { op = op_delete; line = codes "two\n" }
      ∷ record { op = op_add; line = codes "2\n" }
      ∷ record { op = op_context; line = codes "three\n" }
      ∷ [];
}

hunk-validates : validate (some hunk) ≡ none
unfolding validate
hunk-validates = refl

validate-IsConsistent_example : (validate (some hunk) ≡ none) ↔ IsConsistent hunk
validate-IsConsistent_example = validate-IsConsistent hunk

hunk-applies :
    (apply_fragment buffer_writer
      (reader_of source)
      (lines_of source_lines)
      (new_text_applier [])
      (some hunk)).1
    ≡ none
unfolding apply_fragment apply_when apply_checked apply_valid apply_preimage change_lines
    finish_fragment copy_leading apply_lines apply_text_line match_line frag_start span leftover
    validate equal
hunk-applies = refl

apply_fragment-Applied_example :
    let b =
      (apply_fragment buffer_writer
        (reader_of source)
        (lines_of source_lines)
        (new_text_applier [])
        (some hunk)).0 in
    (false ≡ false) × IsConsistent hunk × Applied (λ w. w) source_lines (new_text_applier []) hunk b
apply_fragment-Applied_example =
    apply_fragment-Applied buffer_writer (reader_of source) (lines_of source_lines) (λ w. w)
      source_lines buffer_writer-Appends (lines_of-ReadsLines source_lines) (new_text_applier [])
      hunk hunk-applies

abbrev file : File
file = record {
  old_name = codes "a";
  new_name = codes "a";
  is_new = false;
  is_delete = false;
  is_copy = false;
  is_rename = false;
  old_mode = 0;
  new_mode = 0;
  old_oid_prefix = [];
  new_oid_prefix = [];
  score = pos 0;
  text_fragments = hunk ∷ [];
  is_binary = false;
  binary_fragment = none;
  reverse_binary_fragment = none;
}

abbrev unsorted : List TextFragment → List TextFragment
unsorted fs = fs

file-applies :
    (apply buffer_writer (reader_of source) (lines_of source_lines) unsorted 10 [] file).1 ≡ none
unfolding apply apply_fragment apply_when apply_checked apply_valid apply_preimage change_lines
    finish_fragment copy_leading apply_lines apply_text_line match_line frag_start span leftover
    validate equal close copy_lines_from copy_lines copy_lines_end resume copy_end
file-applies = refl

hunk-Sorts : Sorts unsorted (hunk ∷ [])
hunk-Sorts = record {
  same = Perm.refl (hunk ∷ []);
  ordered = Pairwise.cons (λ g m. absurd (not-mem-nil m)) Pairwise.nil;
}

apply-patched_example :
    Match source_lines 0 (hunk ∷ [])
    × ((apply buffer_writer (reader_of source) (lines_of source_lines) unsorted 10 [] file).0
        ≡ codes "one\n2\nthree\n")
unfolding frag_start
apply-patched_example =
    apply-patched buffer_writer (reader_of source) (lines_of source_lines) unsorted 10 (λ w. w)
      source_lines buffer_writer-Appends (lines_of-ReadsLines source_lines) [] file hunk []
      hunk-Sorts refl refl file-applies

abbrev literal : BinaryFragment
literal = record { method = patch_literal; size = pos 3; content = codes "new" }

abbrev second : BinaryFragment
second = record { method = patch_delta; size = pos 0; content = [] }

apply_binary_once_example :
    let a = new_binary_applier [] in
    let b = (apply_binary buffer_writer (reader_of source) a (some literal)).0 in
    (apply_binary buffer_writer (reader_of source) b (some second)
      ≡ (b, apply_error (some (plain apply_in_progress)) []))
    × (close_binary buffer_writer (reader_of source) 3 b ≡ (record b { closed = true }, none))
    × (apply_binary buffer_writer (reader_of source) (record b { closed = true }) (some second)
        ≡ (record b { closed = true }, apply_error (some (plain applier_closed)) []))
apply_binary_once_example =
    apply_binary_once buffer_writer (reader_of source) (new_binary_applier []) literal second 3 refl
      refl

abbrev jane : PatchIdentity
jane = record { name = codes "Jane"; email = codes "j@x" }

parse_jane : parse_patch_identity (λ s. s) (codes "Jane<j@x>") ≡ some jane
unfolding parse_patch_identity split_identity split_at_sign index_byte scan_back scan_forward
    ends_with has_email_byte strip_comment choose_name normalize_space unquote_pairs equal
parse_jane = refl

string_jane : identity_string jane ≡ codes "Jane <j@x>"
unfolding identity_string equal
string_jane = refl

abbrev jane_doe : PatchIdentity
jane_doe = record { name = codes "Jane Q. Doe"; email = codes "j@x.org" }

jane_doe-tidy : tidy true jane_doe.name ≡ true
unfolding tidy is_space
jane_doe-tidy = refl

jane_doe-trimmed :
    (trim_last b' ' jane_doe.name ≡ jane_doe.name)
    × (trim_last b' ' jane_doe.email ≡ jane_doe.email)
unfolding trim_last
jane_doe-trimmed = (refl, refl)

name_bytes : All IsNameByte jane_doe.name
name_bytes = omega arith

email_bytes : All IsEmailByte jane_doe.email
unfolding is_space
email_bytes = ground arith

parse_patch_identity-identity_string_example :
    parse_patch_identity (trim_last b' ') (identity_string jane_doe) ≡ some jane_doe
parse_patch_identity-identity_string_example =
    parse_patch_identity-identity_string (trim_last b' ') jane_doe jane_doe-tidy name_bytes
      email_bytes jane_doe-trimmed.0 jane_doe-trimmed.1

nothing_to_trim : trim_last b' ' [] ≡ []
unfolding trim_last
nothing_to_trim = refl

letters_are_no_at : All (λ c. c ≢ b'@') (codes "j")
letters_are_no_at = omega arith

parse_patch_identity_address_example :
    parse_patch_identity (trim_last b' ') (codes "j@x.org")
    ≡ some (record { name = codes "j@x.org"; email = codes "j@x.org" })
parse_patch_identity_address_example =
    parse_patch_identity_address (trim_last b' ') (codes "j") (codes "x.org") email_bytes
      letters_are_no_at nothing_to_trim

abbrev used_applier : TextApplier Bytes
used_applier = record { dst = codes "> "; next_line = 2; closed = false; dirty = true }

used_applier-closes :
    (close buffer_writer (reader_of source) (lines_of source_lines) 5 used_applier).1 ≡ none
unfolding close copy_lines_from copy_lines copy_lines_end resume copy_end
used_applier-closes = refl

close_sound_example :
    (close buffer_writer (reader_of source) (lines_of source_lines) 5 used_applier).0.dst
    ≡ codes "> three\n"
close_sound_example =
    close_sound buffer_writer (lines_of source_lines) (λ w. w) source_lines buffer_writer-Appends
      (lines_of-ReadsLines source_lines) (reader_of source) 5 used_applier refl refl
      used_applier-closes

quote_tab : quoted_name (codes "a\tb") ≡ 34 ∷ b'a' ∷ 92 ∷ b't' ∷ b'b' ∷ 34 ∷ []
unfolding quoted_name quote_byte
quote_tab = refl

format_hunk :
    format_fragment (λ n. codes "N") hunk ≡ codes "@@ -N,N +N,N @@\n one\n-two\n+2\n three\n"
unfolding format_fragment format_header equal no_eol
format_hunk = refl

quoted_name-Printable_example : All Printable (quoted_name (codes "a\tb"))
quoted_name-Printable_example = quoted_name-Printable (codes "a\tb")
