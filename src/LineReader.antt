-- ===== src/LineReader.antt =====
-- gitdiff/io.go: `lineReaderAt`, over a reader of bytes. A reader's state is its index and its flag, which
-- each call passes on; an offset is a natural number, and so is a line number behind the check of its
-- sign. A slice of the index behind its end, which the callers rule out, reads 0 here.
pub mod Offsets
pub mod Index
pub mod Sound
use go_gitdiff.Base.{
  ℕ, zero, suc, ◌+◌, ◌-◌, Bool, true, false, not, ◌&&◌, Option, none, some, List, [], ◌∷◌, ◌++◌,
  Bytes, codes, length, take, drop, get_or, ltb, leb, ◌==◌, if◌then◌else◌,
}
use go_gitdiff.Base.Int.{ℤ, pos, negsuc}
use go_gitdiff.Errors.{Error, eof, message, stuck}
use go_gitdiff.Io.{ReaderAt, buffer}

pub record LineReader : Type 0 where
  pub index : List ℕ
  pub eof : Bool

abbrev pub new_line_reader : LineReader
new_line_reader = record { index = []; eof = false }

abbrev pub index_buffer_size : ℕ
index_buffer_size = 1024

-- `lastOffset`
unfoldable pub last_offset : List ℕ → ℕ
last_offset [] = 0
last_offset (x ∷ []) = x
last_offset (x ∷ y ∷ xs) = last_offset (y ∷ xs)

-- The loop over the bytes of a buffer: the offset and the index behind it.
pub scan : ℕ → List ℕ → Bytes → ℕ × List ℕ
scan offset index [] = (offset, index)
scan offset index (b ∷ bs) =
    scan (offset + 1) (if b == b'\n' then index ++ (offset + 1) ∷ [] else index) bs

-- What the end of the source adds.
pub index_end : ℕ × List ℕ → LineReader
index_end (offset, index) = record {
  index = if ltb (last_offset index) offset then index ++ offset ∷ [] else index;
  eof = true;
}

-- What follows a read, by its result.
pub index_round :
    (ℕ → LineReader → LineReader × Option Error)
    → LineReader
    → ℕ
    → Bytes × Option Error
    → LineReader × Option Error
index_round go r offset (b, some eof) = (index_end (scan offset r.index b), none)
index_round go r offset (b, some e) = (r, some e)
index_round go r offset (b, none) =
    let (offset', index') = scan offset r.index b in go offset' (record r { index = index' })

-- The offset of the first byte that `readBytes` reads, and the number of bytes.
unfoldable pub start_offset : List ℕ → ℕ → ℕ
start_offset index line =
    if ltb (length index) line
    then last_offset index
    else if ltb 0 line
    then get_or index (line - 1) 0
    else 0

unfoldable pub byte_size : List ℕ → ℕ → ℕ → ℕ
byte_size index line n =
    if ltb 0 n
    then (if ltb (length index) (line + n)
        then last_offset index - start_offset index line
        else get_or index (line + n - 1) 0 - start_offset index line)
    else 0

-- `buf[start:end]`
abbrev pub slice : Bytes → ℕ → ℕ → Bytes
slice buf start end = take (end - start) (drop start buf)

-- The loop that cuts the buffer, whose first byte stands at `base`, into at most `n` lines.
unfoldable pub cut_lines : ℕ → List ℕ → Bytes → ℕ → ℕ → List Bytes
cut_lines zero index buf base line = []
cut_lines (suc n) index buf base line =
    let more = cut_lines n index buf base (line + 1) in
    if ltb line (length index)
    then slice buf (if ltb 0 line then get_or index (line - 1) 0 - base else 0)
        (get_or index line 0 - base)
      ∷ more
    else []

abbrev pub corrupt : Error
corrupt = message (codes "ReadLinesAt: corrupt line index or changed source data")

-- `readBytes`, by the result of its read.
pub read_checked : ℕ → ℕ → Bytes × Option Error → Bytes × ℕ × Option Error
read_checked size offset (b, some eof) = ([], 0, some corrupt)
read_checked size offset (b, some e) = ([], 0, some e)
read_checked size offset (b, none) = (buffer size b, offset, none)

-- `if n < count`
abbrev pub with_end : ℕ → List Bytes → List Bytes × Option Error
with_end n lines = (lines, if ltb (length lines) n then some eof else none)

pub read_cut : List ℕ → ℕ → ℕ → Bytes × ℕ × Option Error → List Bytes × Option Error
read_cut index n line (buf, base, some e) = ([], some e)
read_cut index n line (buf, base, none) = with_end n (cut_lines n index buf base line)

module _ (read : ReaderAt) where
  -- The loop of `indexTo`, with fuel.
  pub index_loop : ℕ → ℕ → ℕ → LineReader → LineReader × Option Error
  index_loop zero line offset r = (r, some stuck)
  index_loop (suc fuel) line offset r =
      if ltb (length r.index) line
      then index_round (index_loop fuel line) r offset (read index_buffer_size offset)
      else (r, none)

  unfoldable pub index_to : ℕ → ℕ → LineReader → LineReader × Option Error
  unfolding index_loop index_round index_end scan
  index_to fuel line r = index_loop fuel line (last_offset r.index) r

  unfoldable pub read_bytes : List ℕ → ℕ → ℕ → Bytes × ℕ × Option Error
  unfolding read_checked
  read_bytes index line n =
      read_checked (byte_size index line n) (start_offset index line)
        (read (byte_size index line n) (start_offset index line))

  -- The lines, once the index is made.
  pub read_indexed : ℕ → ℕ → LineReader × Option Error → LineReader × List Bytes × Option Error
  read_indexed n line (r, some e) = (r, [], some e)
  read_indexed n line (r, none) =
      if leb (length r.index) line
      then (r, [], some eof)
      else (let lines = read_cut r.index n line (read_bytes r.index line n) in
          (r, lines.0, lines.1))

  -- The index up to `line`, unless it is there.
  abbrev pub index_needed : ℕ → ℕ → LineReader → LineReader × Option Error
  index_needed fuel line r =
      if ltb (length r.index) line && not r.eof then index_to fuel line r else (r, none)

  -- `ReadLinesAt` for `n` lines, with fuel for `indexTo`.
  unfoldable pub read_lines_at : ℕ → LineReader → ℕ → ℤ → LineReader × List Bytes × Option Error
  unfolding read_indexed read_cut
  read_lines_at fuel r n (negsuc m) = (r, [], some (message (codes "ReadLinesAt: negative offset")))
  read_lines_at fuel r n (pos line) =
      if n == 0 then (r, [], none) else read_indexed n line (index_needed fuel (line + n) r)
