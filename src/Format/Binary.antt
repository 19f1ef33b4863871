-- ===== src/Format/Binary.antt =====
-- gitdiff/format.go: the text of a binary fragment. The decimal text of a number and `deflate`, what
-- a zlib writer that is closed has written, are parameters. The buffer is written over wholly by
-- each call of `base85Encode`, so what a line holds is what that call writes.
use go_gitdiff.Base.{
  ℕ, zero, suc, ◌+◌, ◌-◌, ◌/◌, ◌%◌, [], ◌∷◌, ◌++◌, Bytes, codes, length, take, drop, leb, ◌==◌,
  if◌then◌else◌,
}
use go_gitdiff.Base.Int.{ℤ}
use go_gitdiff.Base85.{base85_encode}
use go_gitdiff.BinaryApply.{
  BinaryPatchMethod, patch_delta, patch_literal, other_method, BinaryFragment,
}

-- `sizeChar`, a byte.
unfoldable pub size_char : ℕ → ℕ
size_char n = if leb n 26 then (b'A' + n - 1) % 256 else (b'a' + n - 27) % 256

-- The line of the bytes that are left behind the loop.
unfoldable pub format_rest : Bytes → Bytes
format_rest content =
    if length content == 0
    then []
    else size_char (length content) ∷ (base85_encode content ++ 10 ∷ [])

-- The loop over lines of 52 bytes, `k` of them, and the rest.
unfoldable pub format_data : ℕ → Bytes → Bytes
unfolding format_rest
format_data zero content = format_rest content
format_data (suc k) content =
    (b'z' ∷ (base85_encode (take 52 content) ++ 10 ∷ [])) ++ format_data k (drop 52 content)

abbrev pub method_text : BinaryPatchMethod → Bytes
method_text patch_delta = codes "delta "
method_text patch_literal = codes "literal "
method_text (other_method n) = []

module _ (decimal : ℤ → Bytes) (deflate : Bytes → Bytes) where
  -- `FormatBinaryFragment`
  unfoldable pub format_binary_fragment : BinaryFragment → Bytes
  unfolding format_data
  format_binary_fragment f =
      (method_text f.method ++ (decimal f.size ++ 10 ∷ []))
      ++ (format_data (length (deflate f.content) / 52) (deflate f.content) ++ 10 ∷ [])
