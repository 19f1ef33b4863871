-- ===== src/PatchIdentity/RoundTrip.antt =====
-- gitdiff/patch_identity.go: `ParsePatchIdentity` on what `String` writes.
use go_gitdiff.Base.{
  ◌<◌, ◌≡◌, ◌≢◌, refl, sym, ap, ◌∙◌, true, false, some, [], ◌∷◌, ◌++◌, append_assoc, Bytes, All,
  All-append, length, length-append, arith, equal, equal_iff,
}
use go_gitdiff.PatchIdentity.{
  PatchIdentity, is_space, identity_string, has_email_byte, strip_comment, choose_name,
  parse_patch_identity,
}
use go_gitdiff.PatchIdentity.Scan.{IsNameByte, IsEmailByte}
use go_gitdiff.PatchIdentity.Split.{All-weaken, bracketed, split_identity_lem, split_address}
use go_gitdiff.PatchIdentity.Normal.{
  tidy, IsUnquoted, normalize_space_lem, normalize_space-space, tidy-append, tidy_words, tidy_text,
  normalize_space-nil, unquote_pairs_lem,
}

no_email_byte : (s : Bytes) → All IsNameByte s → has_email_byte s ≡ false
unfolding has_email_byte
no_email_byte [] h = refl
no_email_byte (c ∷ s) (h, k) = rw (no_email_byte s k) (ground arith)

tidy-nonempty : (s : Bytes) → tidy true s ≡ true → s ≢ []
unfolding tidy
tidy-nonempty [] h = λ e. cc
tidy-nonempty (c ∷ s) h = λ e. cc

-- What `String` writes, and that the first passes of the parser leave it alone.
module _ (i : PatchIdentity) where
  abbrev written : Bytes
  written = bracketed (i.name ++ b' ' ∷ []) i.email

  identity_string-bracketed : tidy true i.name ≡ true → identity_string i ≡ written
  unfolding identity_string
  identity_string-bracketed words =
      let some_name : equal i.name [] ≡ false =
        ground (arith, equal_iff i.name [], tidy-nonempty i.name words) in
      rw some_name (sym (append_assoc i.name (b' ' ∷ []) (b'<' ∷ (i.email ++ b'>' ∷ []))))

  bracketed-tidy : tidy true i.name ≡ true → All IsEmailByte i.email → tidy true written ≡ true
  bracketed-tidy words ok =
      ap (tidy true) (append_assoc i.name (b' ' ∷ []) (b'<' ∷ (i.email ++ b'>' ∷ [])))
      ∙ tidy-append true i.name (b'<' ∷ (i.email ++ b'>' ∷ [])) words (
          unfold tidy is_space in
          tidy_words (i.email ++ b'>' ∷ []) (
            All-append (λ c. is_space c ≡ false) i.email (b'>' ∷ [])
              (All-weaken (λ c h. h.1) i.email ok) (refl, tt)))

  spaced-name : All IsNameByte i.name → All IsNameByte (i.name ++ b' ' ∷ [])
  spaced-name plain = All-append IsNameByte i.name (b' ' ∷ []) plain (ground arith)

  bracketed-IsUnquoted : All IsNameByte i.name → All IsEmailByte i.email → All IsUnquoted written
  bracketed-IsUnquoted plain ok =
      All-append IsUnquoted (i.name ++ b' ' ∷ []) _ (All-weaken (λ c h. h.0) _ (spaced-name plain))
        (
          ground arith,
          All-append IsUnquoted i.email (b'>' ∷ []) (All-weaken (λ c h. h.0) i.email ok)
              (ground arith),
        )

module _ (trim_space : Bytes → Bytes) where
  strip_comment_lem : (s : Bytes) → All IsNameByte s → strip_comment s ≡ s
  unfolding strip_comment
  strip_comment_lem [] h = refl
  strip_comment_lem (c ∷ s) (h, k) = ground arith

  choose_name_lem :
      (name email : Bytes)
      → name ≢ []
      → All IsNameByte name
      → choose_name trim_space name email ≡ some (record { name = name; email = email })
  unfolding choose_name
  choose_name_lem name email some_name plain =
      ground (arith, equal_iff name [], no_email_byte name plain)

  choose_email :
      (email : Bytes)
      → 0 < length email
      → choose_name trim_space [] email ≡ some (record { name = email; email = email })
  unfolding choose_name equal
  choose_email [] h = absurd (omega arith)
  choose_email (c ∷ email) h = refl

  -- An identity whose name is not empty, has single spaces between its words and none around them,
  -- and holds none of the bytes `"`, `\`, `(`, `@`, `<` and `>`, and whose email holds no white
  -- space and none of these bytes but `@`, is what `ParsePatchIdentity` gives for the text that
  -- `String` writes; `strings.TrimSpace` leaves both as they are.
  pub parse_patch_identity-identity_string :
      (i : PatchIdentity)
      → tidy true i.name ≡ true
      → All IsNameByte i.name
      → All IsEmailByte i.email
      → trim_space i.name ≡ i.name
      → trim_space i.email ≡ i.email
      → parse_patch_identity trim_space (identity_string i) ≡ some i
  unfolding parse_patch_identity
  parse_patch_identity-identity_string i words plain ok trimmed trimmed_email =
      let p = i.name ++ b' ' ∷ [] in
      let written = identity_string-bracketed i words in
      let normal = normalize_space_lem (bracketed p i.email) (bracketed-tidy i words ok) in
      let unquoted = unquote_pairs_lem (bracketed p i.email) (bracketed-IsUnquoted i plain ok) in
      let split = split_identity_lem trim_space p i.email (spaced-name i plain) ok trimmed_email in
      rw
        (
          written,
          normal,
          unquoted,
          split,
          normalize_space-space i.name words,
          strip_comment_lem i.name plain,
          trimmed,
        )
        (choose_name_lem i.name i.email (tidy-nonempty i.name words) plain)

  -- A plain email address, bytes with an `@` that are no white space and none of the bytes `"`,
  -- `\`, `(`, `<` and `>`, is both the name and the email of what `ParsePatchIdentity` returns;
  -- `strings.TrimSpace` leaves the empty text as it is.
  pub parse_patch_identity_address :
      (l d : Bytes)
      → All IsEmailByte (l ++ b'@' ∷ d)
      → All (λ c. c ≢ b'@') l
      → trim_space [] ≡ []
      → parse_patch_identity trim_space (l ++ b'@' ∷ d)
        ≡ some (record { name = l ++ b'@' ∷ d; email = l ++ b'@' ∷ d })
  unfolding parse_patch_identity
  parse_patch_identity_address l d ok no_at trimmed =
      let m = l ++ b'@' ∷ d in
      let some_bytes : 0 < length m = omega (arith, length-append l (b'@' ∷ d)) in
      let words = tidy_text m some_bytes (All-weaken (λ c h. h.1) m ok) in
      let normal = normalize_space_lem m words in
      let unquoted = unquote_pairs_lem m (All-weaken (λ c h. h.0) m ok) in
      let split = split_address trim_space l d ok no_at in
      rw (normal, unquoted, split, normalize_space-nil, strip_comment_lem [] tt, trimmed)
        (choose_email m some_bytes)
