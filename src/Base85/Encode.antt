-- ===== src/Base85/Encode.antt =====
-- gitdiff/base85.go: decoding undoes encoding.
use Prim.Native.Nat.{bit_or}
use go_gitdiff.Base.{
  ℕ, ◌+◌, ◌-◌, ◌*◌, ◌^◌, ◌<◌, ◌≡◌, refl, sym, ap, ◌∙◌, none, [], ◌∷◌, ◌++◌, append-nil,
  append_assoc, Bytes, length, length-append, arith, IsByte, All,
}
use go_gitdiff.Base.Bits.{zero-bit_or, bit_or_multiple_right}
use go_gitdiff.Base85.{
  spill, finish_decode, decode_loop, base85_decode, encode_word, word_of, encode_tail,
  base85_encode, base85_len,
}
use go_gitdiff.Base85.Word.{decode-encode_word, word_of_lem, spill_four}

-- The decoder's loop ends with nothing pending and `dst` full.
finish_full : (len : ℕ) (out : Bytes) → len ≡ length out → finish_decode len out 0 ≡ (out, none)
unfolding finish_decode
finish_full len out e = ground arith

-- One word whose spilled bytes are `bs`, then the end of the input.
last_word :
    (len i : ℕ) (out : Bytes) (v : ℕ) (bs : Bytes)
    → v < 2 ^ 32
    → spill 4 (len - length out) v ≡ bs
    → len ≡ length (out ++ bs)
    → decode_loop len i out 0 0 (encode_word v) ≡ (out ++ bs, none)
last_word len i out v bs h e full =
    ap (decode_loop len i out 0 0) (sym (append-nil (encode_word v)))
    ∙ decode-encode_word len i out v [] h
    ∙ rw e (unfold decode_loop in finish_full len (out ++ bs) full)

room : (len : ℕ) (out bs : Bytes) → len ≡ length out + length bs → len - length out ≡ length bs
room len out bs e = omega arith

full : (len : ℕ) (out bs : Bytes) → len ≡ length out + length bs → len ≡ length (out ++ bs)
full len out bs e = omega (arith, length-append out bs)

tail_one : (a : ℕ) → bit_or 0 (a * 2 ^ 24) ≡ a * 2 ^ 24
tail_one a = zero-bit_or _

tail_two :
    (a b : ℕ) → IsByte b → bit_or (bit_or 0 (b * 2 ^ 16)) (a * 2 ^ 24) ≡ b * 2 ^ 16 + a * 2 ^ 24
tail_two a b hb =
    rw zero-bit_or (bit_or_multiple_right 24 a (a * 2 ^ 24) (b * 2 ^ 16) refl (omega arith))

tail_three :
    (a b c : ℕ)
    → IsByte b
    → IsByte c
    → bit_or (bit_or (bit_or 0 (c * 2 ^ 8)) (b * 2 ^ 16)) (a * 2 ^ 24)
      ≡ c * 2 ^ 8 + b * 2 ^ 16 + a * 2 ^ 24
tail_three a b c hb hc = rw zero-bit_or (
    rw (bit_or_multiple_right 16 b (b * 2 ^ 16) (c * 2 ^ 8) refl (omega arith))
      (bit_or_multiple_right 24 a (a * 2 ^ 24) (c * 2 ^ 8 + b * 2 ^ 16) refl (omega arith)))

spill_one : (a : ℕ) → IsByte a → spill 4 1 (a * 2 ^ 24) ≡ a ∷ []
unfolding spill
spill_one a ha = ground arith

spill_two : (a b : ℕ) → IsByte a → IsByte b → spill 4 2 (b * 2 ^ 16 + a * 2 ^ 24) ≡ a ∷ b ∷ []
unfolding spill
spill_two a b ha hb = ground arith

spill_three :
    (a b c : ℕ)
    → IsByte a
    → IsByte b
    → IsByte c
    → spill 4 3 (c * 2 ^ 8 + b * 2 ^ 16 + a * 2 ^ 24) ≡ a ∷ b ∷ c ∷ []
unfolding spill
spill_three a b c ha hb hc = ground arith

decode-tail :
    (len i : ℕ) (out tail : Bytes)
    → All IsByte tail
    → length tail < 4
    → len ≡ length out + length tail
    → decode_loop len i out 0 0 (encode_tail tail) ≡ (out ++ tail, none)
unfolding encode_tail
decode-tail len i out [] h small e =
    rw append-nil (unfold decode_loop in finish_full len out (omega arith))
decode-tail len i out (a ∷ []) h small e = rw (tail_one a) (
    last_word len i out (a * 2 ^ 24) (a ∷ []) (omega arith)
      (rw (room len out (a ∷ []) e) (spill_one a h.0)) (full len out (a ∷ []) e))
decode-tail len i out (a ∷ b ∷ []) h small e = rw (tail_two a b h.1.0) (
    last_word len i out (b * 2 ^ 16 + a * 2 ^ 24) (a ∷ b ∷ []) (omega arith)
      (rw (room len out (a ∷ b ∷ []) e) (spill_two a b h.0 h.1.0)) (full len out (a ∷ b ∷ []) e))
decode-tail len i out (a ∷ b ∷ c ∷ []) h small e = rw (tail_three a b c h.1.0 h.1.1.0) (
    last_word len i out (c * 2 ^ 8 + b * 2 ^ 16 + a * 2 ^ 24) (a ∷ b ∷ c ∷ []) (omega arith)
      (rw (room len out (a ∷ b ∷ c ∷ []) e) (spill_three a b c h.0 h.1.0 h.1.1.0))
      (full len out (a ∷ b ∷ c ∷ []) e))
decode-tail len i out (a ∷ b ∷ c ∷ d ∷ tail) h small e = absurd (omega arith)

-- The first four bytes of what is left to decode.
four_spilled :
    (len : ℕ) (out : Bytes) (a b c d : ℕ) (rest : Bytes)
    → All IsByte (a ∷ b ∷ c ∷ d ∷ rest)
    → len ≡ length out + length (a ∷ b ∷ c ∷ d ∷ rest)
    → spill 4 (len - length out) (word_of a b c d) ≡ a ∷ b ∷ c ∷ d ∷ []
four_spilled len out a b c d rest (ha, (hb, (hc, (hd, hrest)))) e =
    rw (room len out (a ∷ b ∷ c ∷ d ∷ rest) e, word_of_lem a b c d hb hc hd)
      (spill_four (length rest) a b c d ha hb hc hd)

decode-encode_loop :
    (len i : ℕ) (out src : Bytes)
    → All IsByte src
    → len ≡ length out + length src
    → decode_loop len i out 0 0 (base85_encode src) ≡ (out ++ src, none)
unfolding base85_encode
decode-encode_loop len i out (a ∷ b ∷ c ∷ d ∷ rest) (ha, (hb, (hc, (hd, hrest)))) e =
    decode-encode_word len i out (word_of a b c d) (base85_encode rest)
      (omega (arith, word_of_lem a b c d hb hc hd))
    ∙ rw (four_spilled len out a b c d rest (ha, (hb, (hc, (hd, hrest)))) e) (
        decode-encode_loop len (i + 1 + 1 + 1 + 1 + 1) (out ++ a ∷ b ∷ c ∷ d ∷ []) rest hrest
          (omega (arith, length-append out (a ∷ b ∷ c ∷ d ∷ [])))
        ∙ ap (λ bs. (bs, none)) (append_assoc out (a ∷ b ∷ c ∷ d ∷ []) rest))
decode-encode_loop len i out [] h e = decode-tail len i out [] h (omega arith) e
decode-encode_loop len i out (a ∷ []) h e = decode-tail len i out (a ∷ []) h (omega arith) e
decode-encode_loop len i out (a ∷ b ∷ []) h e = decode-tail len i out (a ∷ b ∷ []) h (omega arith) e
decode-encode_loop len i out (a ∷ b ∷ c ∷ []) h e =
    decode-tail len i out (a ∷ b ∷ c ∷ []) h (omega arith) e

-- Decoding gives back every byte string that was encoded, in the length that it had.
pub base85_decode-base85_encode :
    (src : Bytes) → All IsByte src → base85_decode (length src) (base85_encode src) ≡ (src, none)
unfolding base85_decode
base85_decode-base85_encode src h = decode-encode_loop (length src) 0 [] src h (omega arith)

-- The encoding of `n` bytes has the length that `base85_len` computes for a buffer to hold it.
pub length-base85_encode : (src : Bytes) → length (base85_encode src) ≡ base85_len (length src)
unfolding base85_encode base85_len
length-base85_encode (a ∷ b ∷ c ∷ d ∷ rest) = omega (arith, length-base85_encode rest)
length-base85_encode [] = omega arith
length-base85_encode (a ∷ []) = omega arith
length-base85_encode (a ∷ b ∷ []) = omega arith
length-base85_encode (a ∷ b ∷ c ∷ []) = omega arith
