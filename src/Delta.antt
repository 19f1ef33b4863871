-- ===== src/Delta.antt =====
-- gitdiff/apply_binary.go: the delta that a binary fragment holds, and `BinaryApplier`. An int64 is
-- its bit pattern, a number below 2 ^ 64; `signed64` is the integer that it stands for. A byte of
-- the delta is a number below 256.
pub mod Size
pub mod Unpack
pub mod Encode
pub mod Step
pub mod Instr
pub mod Run
pub mod Sound
use Prim.Native.Nat.{bit_and, bit_or}
use go_gitdiff.Base.{
  ℕ, zero, suc, ◌+◌, ◌-◌, ◌*◌, ◌%◌, ◌^◌, Bool, true, false, Option, none, some, List, [], ◌∷◌,
  Bytes, codes, length, take, drop, ltb, leb, ◌==◌, if◌then◌else◌,
}
use go_gitdiff.Base.Int.{ℤ, pos, negsuc}
pub use go_gitdiff.Base.Int64.{signed64}
use go_gitdiff.Errors.{Error, conflict, message, stuck}
use go_gitdiff.Io.{ReaderAt, Writer, is_len, buffer}

-- `size |= int64(b&0x7F) << shift`
pub add_group : ℕ → ℕ → ℕ → ℕ
add_group size shift b = bit_or size (bit_and b 0x7f * 2 ^ shift % 2 ^ 64)

-- The loop of `readBinaryDeltaSize`; at the end of the input the rest is nil.
pub read_size_loop : ℕ → ℕ → Bytes → ℕ × Bytes
read_size_loop size shift [] = (size, [])
read_size_loop size shift (b ∷ d) =
    let more = read_size_loop (add_group size shift b) (shift + 7) d in
    if leb b 0x7f then (add_group size shift b, d) else more

unfoldable pub read_size : Bytes → ℕ × Bytes
unfolding read_size_loop add_group
read_size d = read_size_loop 0 0 d

abbrev pub incomplete_add : Error
incomplete_add = message (codes "corrupt binary delta: incomplete add")

abbrev pub incomplete_copy : Error
incomplete_copy = message (codes "corrupt binary delta: incomplete copy")

abbrev pub invalid_opcode : Error
invalid_opcode = message (codes "invalid delta opcode 0")

abbrev pub wrong_size : Error
wrong_size = message (codes "corrupt binary delta: insufficient or extra data")

abbrev pub src_size_conflict : Error
src_size_conflict = conflict (codes "fragment src size does not match actual src size")

abbrev pub default_size : ℕ
default_size = 0x10000

-- What an operation leaves: the writer, the amount written, the rest of the delta and the error.
pub record Done (W : Type 0) : Type 0 where
  pub writer : W
  pub amount : ℕ
  pub rest : Bytes
  pub err : Option Error

-- The end of an operation that wrote `n` bytes, by the result of the write.
pub after_write : {W : Type 0} → ℕ → Bytes → W × ℕ × Option Error → Done W
after_write n rest (w, _, e) = record { writer = w; amount = n; rest = rest; err = e }

-- `applyBinaryDeltaAdd`; the opcode is the number of bytes.
unfoldable pub apply_add : {W : Type 0} → Writer W → W → ℕ → Bytes → Done W
unfolding after_write
apply_add write w op delta =
    if ltb (length delta) op
    then record { writer = w; amount = 0; rest = delta; err = some incomplete_add }
    else after_write op (drop op delta) (write w (take op delta))

-- The value that the closure `unpack` returns, the delta behind it, and whether it ended early.
pub record Unpacked : Type 0 where
  pub value : ℕ
  pub rest : Bytes
  pub short : Bool

-- `unpack`, with `bits` rounds left from `i` on.
pub unpack : ℕ → ℕ → ℕ → ℕ → ℕ → Bytes → Unpacked
unpack op start zero i v delta = record { value = v; rest = delta; short = false }
unpack op start (suc bits) i v delta = elim (ltb 0 (bit_and op (2 ^ (i + start)))) [
  | false ↦ unpack op start bits (i + 1) v delta
  | true ↦ elim delta [
    | [] ↦ record { value = v; rest = []; short = true }
    | b ∷ d ↦ unpack op start bits (i + 1) (bit_or v (b * 2 ^ (8 * i))) d
  ]
]

-- What follows the read of the source.
pub copy_write : {W : Type 0} → Writer W → W → ℕ → Bytes → Bytes × Option Error → Done W
copy_write write w size rest (b, some e) = record {
  writer = w;
  amount = 0;
  rest = rest;
  err = some e;
}
copy_write write w size rest (b, none) = after_write size rest (write w (buffer size b))

abbrev pub or_default : ℕ → ℕ
or_default size = if size == 0 then default_size else size

-- What follows the two calls of `unpack`.
pub copy_unpacked : {W : Type 0} → Writer W → ReaderAt → W → Unpacked → Unpacked → Done W
copy_unpacked write read w offset size = elim offset.short [
  | true ↦ record { writer = w; amount = 0; rest = size.rest; err = some incomplete_copy }
  | false ↦ elim size.short [
    | true ↦ record { writer = w; amount = 0; rest = size.rest; err = some incomplete_copy }
    | false ↦
        copy_write write w (or_default size.value) size.rest
          (read (or_default size.value) offset.value)
  ]
]

-- `applyBinaryDeltaCopy`. A second `unpack` runs after a first that ended early.
unfoldable pub apply_copy : {W : Type 0} → Writer W → ReaderAt → W → ℕ → Bytes → Done W
apply_copy write read w op delta =
    let offset = unpack op 0 4 0 0 delta in
    copy_unpacked write read w offset (unpack op 4 3 0 0 offset.rest)

-- `switch op & 0x80`
unfoldable pub apply_op : {W : Type 0} → Writer W → ReaderAt → W → ℕ → Bytes → Done W
apply_op write read w op delta =
    if bit_and op 0x80 == 0x80 then apply_copy write read w op delta else apply_add write w op delta

-- `dstSize -= n`
abbrev pub sub64 : ℕ → ℕ → ℕ
sub64 a n = (a + 2 ^ 64 - n % 2 ^ 64) % 2 ^ 64

-- The loop of `applyBinaryDeltaFragment`, with `fuel` rounds, and the check behind it.
pub delta_loop : {W : Type 0} → Writer W → ReaderAt → ℕ → W → ℕ → Bytes → W × Option Error
delta_loop write read fuel w dst [] = (w, if dst == 0 then none else some wrong_size)
delta_loop write read zero w dst (op ∷ delta) = (w, some stuck)
delta_loop write read (suc fuel) w dst (op ∷ delta) = elim (op == 0) [
  | true ↦ (w, some invalid_opcode)
  | false ↦
      let r = apply_op write read w op delta in
      elim r.err [
        | some e ↦ (r.writer, some e)
        | none ↦ delta_loop write read fuel r.writer (sub64 dst r.amount) r.rest
      ]
]

-- `checkBinarySrcSize`, by the answer of `isLen`.
pub size_answer : Bool × Option Error → Option Error
size_answer (ok, some e) = some e
size_answer (true, none) = none
size_answer (false, none) = some src_size_conflict

unfoldable pub check_src_size : ReaderAt → ℕ → Option Error
check_src_size read size = size_answer (is_len read (signed64 size))

-- `applyBinaryDeltaFragment`. A round takes an opcode at least, so the delta's length is enough fuel.
unfoldable pub apply_delta : {W : Type 0} → Writer W → ReaderAt → W → Bytes → W × Option Error
apply_delta write read w frag =
    let src = read_size frag in
    elim (check_src_size read src.0) [
      | some e ↦ (w, some e)
      | none ↦ let dst = read_size src.1 in delta_loop write read (length dst.1) w dst.0 dst.1
    ]
