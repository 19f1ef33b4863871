-- ===== src/Io.antt =====
-- gitdiff/io.go, less the line reader. The reader and the writer are the caller's: a reader is a
-- function from a length and an offset to the bytes read and an error, since `ReadAt` keeps no
-- position, and a writer takes its state to the next one, the number of bytes written and an error.
pub mod Laws
pub mod Copy
use go_gitdiff.Base.{
  ℕ, zero, suc, ◌+◌, ◌-◌, ◌*◌, ◌<◌, ◌≤◌, ◌≡◌, ◌⊎◌, Bool, true, false, ◌&&◌, ◌||◌, Option, none,
  some, [], ◌∷◌, ◌++◌, Bytes, length, take, drop, replicate, ltb, ◌==◌, if◌then◌else◌,
}
use go_gitdiff.Base.Int.{ℤ, pos, negsuc, ltb_ℤ}
use go_gitdiff.Errors.{Error, eof, short_write, stuck}

abbrev pub ReaderAt : Type 0
ReaderAt = ℕ → ℕ → Bytes × Option Error

abbrev pub Writer : Type 0 → Type 0
Writer W = W → Bytes → W × ℕ × Option Error

-- The documented behaviour of `io.ReaderAt` over a source `s` that does not change: as many bytes as
-- there are, `io.EOF` where these are too few, and either answer where they end the source.
pub record ReadsAt (read : ReaderAt) (s : Bytes) : Type 0 where
  pub inside : (n off : ℕ) → off + n < length s → read n off ≡ (take n (drop off s), none)
  pub at_end :
      (n off : ℕ)
      → off + n ≡ length s
      → (read n off ≡ (drop off s, none)) ⊎ (read n off ≡ (drop off s, some eof))
  pub beyond : (n off : ℕ) → length s < off + n → read n off ≡ (drop off s, some eof)

-- The documented behaviour of `io.Writer`: without an error all the bytes are written.
-- `contents` is what the writer holds.
pub record Appends {W : Type 0} (write : Writer W) (contents : W → Bytes) : Type 0 where
  pub count : (w : W) (b : Bytes) → (write w b).2 ≡ none → (write w b).1 ≡ length b
  pub grows : (w : W) (b : Bytes) → (write w b).2 ≡ none → contents (write w b).0 ≡ contents w ++ b

-- `isLen`; the length is an int64, and the offset of the read is not negative.
len_offset : ℤ → ℕ
len_offset (pos n) = n - 1
len_offset (negsuc n) = 0

is_zero : ℤ → Bool
is_zero (pos n) = n == 0
is_zero (negsuc n) = false

is_positive : ℤ → Bool
is_positive (pos n) = ltb 0 n
is_positive (negsuc n) = false

len_answer : ℤ → Bytes × Option Error → Bool × Option Error
len_answer n (b, some eof) =
    ((is_zero n && length b == 0) || (is_positive n && length b == 1), none)
len_answer n (b, e) = (false, e)

unfoldable pub is_len : ReaderAt → ℤ → Bool × Option Error
unfolding len_offset is_zero is_positive len_answer
is_len read n = len_answer n (read 2 (len_offset n))

-- A fresh buffer of `n` zero bytes after a read of `b` into it.
unfoldable pub buffer : ℕ → Bytes → Bytes
buffer n b = b ++ replicate (n - length b) 0

abbrev pub byte_buffer_size : ℕ
byte_buffer_size = 32 * 1024

-- `if rerr != io.EOF { err = rerr }`
abbrev pub unless_eof : Error → Option Error
unless_eof eof = none
unless_eof e = some e

-- How a round of the loop of `copyFrom` ends.
pub data CopyRound (W : Type 0) : Type 0 where
  again : W → ℕ → ℕ → CopyRound W
  stop : W → ℕ → Option Error → CopyRound W

-- `if rerr != nil`, with `off` moved on.
unfoldable pub copy_end : {W : Type 0} → W → ℕ → ℕ → Option Error → CopyRound W
copy_end w written off none = again w written off
copy_end w written off (some e) = stop w written (unless_eof e)

-- What follows the write of `b`, by its result.
pub copy_written : {W : Type 0} → ℕ → ℕ → Bytes → Option Error → W × ℕ × Option Error → CopyRound W
copy_written written off b rerr (w, nw, some e) = stop w (written + nw) (some e)
copy_written written off b rerr (w, nw, none) =
    if length b == nw
    then copy_end w (written + nw) (off + length b) rerr
    else stop w (written + nw) (some short_write)

-- What follows the read, by its result.
pub copy_read : {W : Type 0} → Writer W → W → ℕ → ℕ → Bytes × Option Error → CopyRound W
copy_read write w written off (b, rerr) =
    if length b == 0
    then copy_end w written off rerr
    else copy_written written off b rerr (write w b)

-- The loop of `copyFrom` with `fuel` rounds, over a buffer of `size` bytes.
pub copy_from_loop :
    {W : Type 0} (write : Writer W) (read : ReaderAt) (size fuel : ℕ) (w : W) (written off : ℕ)
    → W × ℕ × Option Error
copy_from_loop write read size zero w written off = (w, written, some stuck)
copy_from_loop write read size (suc fuel) w written off =
    elim (copy_read write w written off (read size off)) [
      | again w' written' off' ↦ copy_from_loop write read size fuel w' written' off'
      | stop w' written' e ↦ (w', written', e)
    ]

-- `copyFrom`: the writer after it, the number of bytes written and the error.
unfoldable pub copy_from :
    {W : Type 0} (write : Writer W) (read : ReaderAt) (fuel : ℕ) (w : W) (off : ℕ)
    → W × ℕ × Option Error
unfolding copy_from_loop copy_read copy_written copy_end
copy_from write read fuel w off = copy_from_loop write read byte_buffer_size fuel w 0 off
