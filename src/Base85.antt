-- ===== src/Base85.antt =====
-- gitdiff/base85.go: Git's Base85. A uint32 is a number below 2 ^ 32 with its wrap-around written
-- out. `dst` is given by its length, and by the bytes written to it so far, of which `ndst` is the
-- number; the bytes behind them keep what they held.
pub mod Word
pub mod Encode
pub mod Accept
use Prim.Native.Nat.{bit_or}
use go_gitdiff.Base.{
  ℕ, zero, suc, ◌+◌, ◌-◌, ◌*◌, ◌/◌, ◌%◌, ◌^◌, Bool, true, false, Option, none, some, List, [], ◌∷◌,
  ◌++◌, Bytes, codes, length, get_or, ltb, ◌==◌, if◌then◌else◌,
}

abbrev pub alphabet : Bytes
alphabet =
    codes "0123456789ABCDEFGHIJKLMNOPQRSTUVWXYZabcdefghijklmnopqrstuvwxyz!#$%&()*+-;<=>?@^_`{|}~"

-- A map from bytes to bytes.
abbrev pub Table : Type 0
Table = ℕ → Option ℕ

-- The loop of `init`, from position `i` of the alphabet on.
pub init_table : ℕ → Bytes → Table → Table
init_table i [] t = t
init_table i (c ∷ cs) t = init_table (i + 1) cs (λ x. if x == c then some i else t x)

unfoldable pub table : Table
unfolding init_table
table = init_table 0 alphabet (λ x. none)

pub data DecodeError : Type 0 where
  invalid_byte : ℕ → ℕ → DecodeError
  underpadded : DecodeError
  underrun : ℕ → ℕ → DecodeError

-- `for j := 0; j < 4 && j < rem; j++`, with `j` counted down: the bytes that it writes.
pub spill : ℕ → ℕ → ℕ → Bytes
spill zero rem v = []
spill (suc j) zero v = []
spill (suc j) (suc rem) v = (v / 2 ^ 24 % 256) ∷ spill j rem (v * 2 ^ 8 % 2 ^ 32)

-- The checks behind the loop.
pub finish_decode : ℕ → Bytes → ℕ → Bytes × Option DecodeError
finish_decode len out n =
    if ltb 0 n
    then (out, some underpadded)
    else if ltb (length out) len
    then (out, some (underrun (length out) len))
    else (out, none)

-- The loop over `src`, at index `i`, with `out` written.
pub decode_loop : ℕ → ℕ → Bytes → ℕ → ℕ → Bytes → Bytes × Option DecodeError
decode_loop len i out v n [] = finish_decode len out n
decode_loop len i out v n (c ∷ cs) = elim (table c) [
  | none ↦ (out, some (invalid_byte i c))
  | some b ↦ elim (n + 1 == 5) [
    | true ↦
        decode_loop len (i + 1) (out ++ spill 4 (len - length out) ((85 * v + b) % 2 ^ 32)) 0 0 cs
    | false ↦ decode_loop len (i + 1) out ((85 * v + b) % 2 ^ 32) (n + 1) cs
  ]
]

-- `base85Decode`: what is written to the `len` bytes of `dst`, and the error.
unfoldable pub base85_decode : ℕ → Bytes → Bytes × Option DecodeError
unfolding decode_loop finish_decode spill
base85_decode len src = decode_loop len 0 [] 0 0 src

-- The closure `encode`, whose five bytes stand at `dst[di:]`.
unfoldable pub encode_word : ℕ → Bytes
encode_word v =
    get_or alphabet (v / (85 * 85 * 85 * 85) % 85) 0
    ∷ get_or alphabet (v / (85 * 85 * 85) % 85) 0
    ∷ get_or alphabet (v / (85 * 85) % 85) 0
    ∷ get_or alphabet (v / 85 % 85) 0
    ∷ get_or alphabet (v % 85) 0
    ∷ []

-- `uint32(a)<<24 | uint32(b)<<16 | uint32(c)<<8 | uint32(d)`
unfoldable pub word_of : ℕ → ℕ → ℕ → ℕ → ℕ
word_of a b c d = bit_or (bit_or (bit_or (a * 2 ^ 24) (b * 2 ^ 16)) (c * 2 ^ 8)) d

-- `v |= …`, in the order of the cases, for the one to three bytes at the end.
unfoldable pub encode_tail : Bytes → Bytes
encode_tail (a ∷ []) = encode_word (bit_or 0 (a * 2 ^ 24))
encode_tail (a ∷ b ∷ []) = encode_word (bit_or (bit_or 0 (b * 2 ^ 16)) (a * 2 ^ 24))
encode_tail (a ∷ b ∷ c ∷ []) =
    encode_word (bit_or (bit_or (bit_or 0 (c * 2 ^ 8)) (b * 2 ^ 16)) (a * 2 ^ 24))
encode_tail _ = []

-- `base85Encode`: the bytes that it writes, a word for each four bytes, then the tail.
unfoldable pub base85_encode : Bytes → Bytes
unfolding encode_word word_of encode_tail
base85_encode (a ∷ b ∷ c ∷ d ∷ rest) = encode_word (word_of a b c d) ++ base85_encode rest
base85_encode tail = encode_tail tail

unfoldable pub base85_len : ℕ → ℕ
base85_len n = (n + 3) / 4 * 5
