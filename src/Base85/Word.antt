-- ===== src/Base85/Word.antt =====
-- gitdiff/base85.go: five encoded bytes are read back as the word that they were made from, and a
-- word's four bytes come out in order.
use Prim.Native.Nat.{min}
use go_gitdiff.Base.{
  ℕ, zero, suc, ◌+◌, ◌-◌, ◌*◌, ◌/◌, ◌%◌, ◌^◌, ◌<◌, ◌≡◌, refl, ap, ◌∙◌, Bool, true, false, none,
  some, [], ◌∷◌, ◌++◌, Bytes, length, get_or, ◌==◌, arith, IsByte,
}
use go_gitdiff.Base.Bits.{bit_or_multiple}
use go_gitdiff.Base.Table.{all_below, all_below_at}
use go_gitdiff.Base85.{alphabet, table, spill, decode_loop, encode_word, word_of, invalid_byte}

-- The test of `table-alphabet` at one digit.
reads_back : ℕ → Bool
unfolding table
reads_back i = elim (table (get_or alphabet i 0)) [ none ↦ false | some b ↦ b == i ]

reads_back_sound : (i : ℕ) → reads_back i ≡ true → table (get_or alphabet i 0) ≡ some i
unfolding reads_back
reads_back_sound i h = ground arith

-- The map that `init` fills takes each letter of the alphabet to its position.
pub table-alphabet : (i : ℕ) → i < 85 → table (get_or alphabet i 0) ≡ some i
unfolding reads_back all_below
table-alphabet i h = reads_back_sound i (all_below_at reads_back 85 i h refl)

-- One byte read: inside a group of five, at the end of one, and outside the alphabet.
module _ (len i : ℕ) (out : Bytes) (v n c d : ℕ) (cs : Bytes) where
  pub decode_more :
      table c ≡ some d
      → ((n + 1) == 5) ≡ false
      → decode_loop len i out v n (c ∷ cs)
        ≡ decode_loop len (i + 1) out ((85 * v + d) % 2 ^ 32) (n + 1) cs
  unfolding decode_loop
  decode_more hit h = rw (hit, decode_loop) (rw h)

  pub decode_fifth :
      table c ≡ some d
      → ((n + 1) == 5) ≡ true
      → decode_loop len i out v n (c ∷ cs)
        ≡ decode_loop len (i + 1) (out ++ spill 4 (len - length out) ((85 * v + d) % 2 ^ 32)) 0 0 cs
  unfolding decode_loop
  decode_fifth hit h = rw (hit, decode_loop) (rw h)

pub decode_invalid :
    (len i : ℕ) (out : Bytes) (v n c : ℕ) (cs : Bytes)
    → table c ≡ none
    → decode_loop len i out v n (c ∷ cs) ≡ (out, some (invalid_byte i c))
unfolding decode_loop
decode_invalid len i out v n c cs miss = rw (miss, decode_loop)

-- Horner's rule on the five digits of a uint32; no step wraps around.
abbrev horner : ℕ → ℕ
horner v =
    (85
        * ((85
                * ((85
                        * ((85 * ((85 * 0 + v / (85 * 85 * 85 * 85) % 85) % 2 ^ 32)
                              + v / (85 * 85 * 85) % 85)
                            % 2 ^ 32)
                      + v / (85 * 85) % 85)
                    % 2 ^ 32)
              + v / 85 % 85)
            % 2 ^ 32)
      + v % 85)
    % 2 ^ 32

horner_lem : (v : ℕ) → v < 2 ^ 32 → horner v ≡ v
horner_lem v h = omega arith

-- Decoding the five bytes of a word spills that word.
pub decode-encode_word :
    (len i : ℕ) (out : Bytes) (v : ℕ) (cs : Bytes)
    → v < 2 ^ 32
    → decode_loop len i out 0 0 (encode_word v ++ cs)
      ≡ decode_loop len (i + 1 + 1 + 1 + 1 + 1) (out ++ spill 4 (len - length out) v) 0 0 cs
unfolding encode_word
decode-encode_word len i out v cs h =
    decode_more len i out 0 0 _ (v / (85 * 85 * 85 * 85) % 85) _ (table-alphabet _ (omega arith))
      refl
    ∙ decode_more len _ out _ _ _ (v / (85 * 85 * 85) % 85) _ (table-alphabet _ (omega arith)) refl
    ∙ decode_more len _ out _ _ _ (v / (85 * 85) % 85) _ (table-alphabet _ (omega arith)) refl
    ∙ decode_more len _ out _ _ _ (v / 85 % 85) _ (table-alphabet _ (omega arith)) refl
    ∙ decode_fifth len _ out _ _ _ (v % 85) _ (table-alphabet _ (omega arith)) refl
    ∙ ap (λ w. decode_loop len (i + 1 + 1 + 1 + 1 + 1) (out ++ spill 4 (len - length out) w) 0 0 cs)
        (horner_lem v h)

-- The four bytes of a word, joined by shifts and `|`, have the value that they spell.
pub word_of_lem :
    (a b c d : ℕ)
    → IsByte b
    → IsByte c
    → IsByte d
    → word_of a b c d ≡ a * 2 ^ 24 + b * 2 ^ 16 + c * 2 ^ 8 + d
unfolding word_of
word_of_lem a b c d hb hc hd =
    rw (bit_or_multiple 24 a (a * 2 ^ 24) (b * 2 ^ 16) refl (omega arith)) (
      rw
        (bit_or_multiple 16 (a * 2 ^ 8 + b) (a * 2 ^ 24 + b * 2 ^ 16) (c * 2 ^ 8) (omega arith)
          (omega arith))
        (bit_or_multiple 8 (a * 2 ^ 16 + b * 2 ^ 8 + c) (a * 2 ^ 24 + b * 2 ^ 16 + c * 2 ^ 8) d
          (omega arith) (omega arith)))

-- `spill` writes as many bytes as there is room for, four at most.
pub spill_four :
    (r a b c d : ℕ)
    → IsByte a
    → IsByte b
    → IsByte c
    → IsByte d
    → spill 4 (suc (suc (suc (suc r)))) (a * 2 ^ 24 + b * 2 ^ 16 + c * 2 ^ 8 + d)
      ≡ a ∷ b ∷ c ∷ d ∷ []
unfolding spill
spill_four r a b c d ha hb hc hd = ground arith

pub length-spill : (j rem v : ℕ) → length (spill j rem v) ≡ min j rem
unfolding spill
length-spill zero rem v = omega arith
length-spill (suc j) zero v = omega arith
length-spill (suc j) (suc rem) v = omega (arith, length-spill j rem (v * 2 ^ 8 % 2 ^ 32))
