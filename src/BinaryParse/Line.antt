-- ===== src/BinaryParse/Line.antt =====
-- gitdiff/binary.go and gitdiff/format.go: one line of binary data.
use go_gitdiff.Base.{
  ℕ, suc, ◌+◌, ◌-◌, ◌*◌, ◌/◌, ◌%◌, ◌<◌, ◌≤◌, ◌≡◌, refl, ap, ◌∙◌, false, not, ◌||◌, some, inl, [],
  ◌∷◌, ◌++◌, Bytes, length, length-append, take, ltb, ◌==◌, IsByte, All, arith,
}
use go_gitdiff.Base85.{base85_encode, base85_len}
use go_gitdiff.Base85.Encode.{base85_decode-base85_encode, length-base85_encode}
use go_gitdiff.BinaryParse.{byte_count, decoded, counted_data, line_data}
use go_gitdiff.Format.Binary.{size_char}

-- The line that the formatter writes for at most 52 bytes.
abbrev pub data_line : Bytes → Bytes
data_line content = size_char (length content) ∷ (base85_encode content ++ 10 ∷ [])

-- The first character of a line is read as the number that it was written for.
pub byte_count-size_char : (n : ℕ) → 0 < n → n ≤ 52 → byte_count (size_char n) ≡ some n
unfolding byte_count size_char
byte_count-size_char n h k = ground arith

take-length-append : (xs ys : Bytes) → take (length xs) (xs ++ ys) ≡ xs
take-length-append [] ys = refl
take-length-append (x ∷ xs) ys = ap (◌∷◌ x) (take-length-append xs ys)

counted_data-encoded :
    (content : Bytes)
    → All IsByte content
    → counted_data (base85_encode content) (some (length content)) ≡ inl content
unfolding counted_data
counted_data-encoded content h =
    let n : length (base85_encode content) ≡ (length content + 3) / 4 * 5 =
      length-base85_encode content ∙ (unfold base85_len in refl) in
    let fits : (ltb (length (base85_encode content) / 5 * 4) (length content)
          || ltb (length content) (length (base85_encode content) / 5 * 4 - 3))
        ≡ false =
      rw n (ground arith) in
    rw (fits, counted_data)
      (ap decoded (base85_decode-base85_encode content h) ∙ (unfold decoded in refl))

-- A line that is written for 1 to 52 bytes is read as these bytes.
pub line_data-data_line :
    (content : Bytes)
    → All IsByte content
    → 0 < length content
    → length content ≤ 52
    → line_data (data_line content) ≡ inl content
unfolding line_data
line_data-data_line content h some_bytes few =
    let n : length (data_line content) ≡ suc (suc (length (base85_encode content))) =
      omega (arith, length-append (base85_encode content) (10 ∷ [])) in
    let m : length (base85_encode content) ≡ (length content + 3) / 4 * 5 =
      length-base85_encode content ∙ (unfold base85_len in refl) in
    let whole : (ltb (length (data_line content)) 7
          || not ((length (data_line content) - 2) % 5 == 0))
        ≡ false =
      rw (n, m) (ground arith) in
    let cut_end : length (data_line content) - 2 ≡ length (base85_encode content) = omega arith in
    let c = byte_count (size_char (length content)) in
    rw (whole, line_data)
      (ap (λ k. counted_data (take k (base85_encode content ++ 10 ∷ [])) c) cut_end
        ∙ ap (λ s. counted_data s c) (take-length-append (base85_encode content) (10 ∷ []))
        ∙ ap (counted_data (base85_encode content))
            (byte_count-size_char (length content) some_bytes few)
        ∙ counted_data-encoded content h)
