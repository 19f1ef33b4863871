-- ===== src/Delta/Encode.antt =====
-- The format that the comments of gitdiff/apply_binary.go describe: a delta as a list of
-- instructions, with its encoding.
use go_gitdiff.Base.{
  ℕ, ◌+◌, ◌*◌, ◌/◌, ◌%◌, ◌^◌, ◌<◌, ◌≤◌, ◌≡◌, false, List, [], ◌∷◌, ◌++◌, Bytes, ◌==◌, if◌then◌else◌,
  arith, length, take, drop,
}
use go_gitdiff.Delta.{Unpacked, default_size, or_default}
use go_gitdiff.Delta.Unpack.{four_present, three_present, opcode_of}

pub data Instr : Type 0 where
  insert : Bytes → Instr
  copy : ℕ → ℕ → Instr

-- Byte `k` of a number.
abbrev pub byte : ℕ → ℕ → ℕ
byte k n = n / 2 ^ (8 * k) % 256

-- The size that a copy spells out; the default size is left out.
abbrev pub spelled : ℕ → ℕ
spelled size = if size == default_size then 0 else size

abbrev pub encode_instr : Instr → Bytes → Bytes
encode_instr (insert b) rest = length b ∷ (b ++ rest)
encode_instr (copy off size) rest =
    opcode_of (byte 0 off) (byte 1 off) (byte 2 off) (byte 3 off) (byte 0 (spelled size))
      (byte 1 (spelled size)) (byte 2 (spelled size))
    ∷ four_present (byte 0 off) (byte 1 off) (byte 2 off) (byte 3 off)
        (three_present (byte 0 (spelled size)) (byte 1 (spelled size)) (byte 2 (spelled size)) rest)

abbrev pub encode_instrs : List Instr → Bytes
encode_instrs [] = []
encode_instrs (i ∷ is) = encode_instr i (encode_instrs is)

-- What an instruction adds to the result, from the source.
abbrev pub expand : Bytes → Instr → Bytes
expand s (insert b) = b
expand s (copy off size) = take size (drop off s)

abbrev pub expand_all : Bytes → List Instr → Bytes
expand_all s [] = []
expand_all s (i ∷ is) = expand s i ++ expand_all s is

-- An instruction that the format can express and that stays inside the source.
abbrev pub Fits : Bytes → Instr → Type 0
Fits s (insert b) = (0 < length b) × (length b < 128)
Fits s (copy off size) = (0 < size) × (size < 2 ^ 24) × (off < 2 ^ 32) × (off + size ≤ length s)

pub four_bytes :
    (n : ℕ) → n < 2 ^ 32 → byte 0 n + byte 1 n * 2 ^ 8 + byte 2 n * 2 ^ 16 + byte 3 n * 2 ^ 24 ≡ n
four_bytes n h = omega arith

pub three_bytes : (n : ℕ) → n < 2 ^ 24 → byte 0 n + byte 1 n * 2 ^ 8 + byte 2 n * 2 ^ 16 ≡ n
three_bytes n h = omega arith

pub unpacked_value :
    {v v' : ℕ} (rest : Bytes)
    → v ≡ v'
    → ◌≡◌ {A = Unpacked}
        (record { value = v; rest = rest; short = false })
        (record { value = v'; rest = rest; short = false })
unpacked_value rest e = λ i. record { value = e i; rest = rest; short = false }

pub or_default-spelled : (size : ℕ) → 0 < size → or_default (spelled size) ≡ size
or_default-spelled size h = ground arith

pub spelled_lt : (size : ℕ) → size < 2 ^ 24 → spelled size < 2 ^ 24
spelled_lt size h = ground arith
