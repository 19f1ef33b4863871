-- ===== src/PatchIdentity/Normal.antt =====
-- gitdiff/patch_identity.go: `normalizeSpace` and `unquotePairs` leave alone what is in their
-- normal form.
use go_gitdiff.Base.{
  ℕ, ◌<◌, ◌≡◌, ◌≢◌, refl, sym, ap, ◌∙◌, Bool, true, false, not, ◌&&◌, [], ◌∷◌, ◌++◌, append-nil,
  append_assoc, Bytes, All, length, length-append, ltb, ◌==◌, if◌then◌else◌, arith, Bool-cases, inl,
  inr,
}
use go_gitdiff.PatchIdentity.{
  is_space, normalize_loop, normalize_space, Quoting, put, unquote_byte, unquote_loop,
  unquote_pairs,
}

-- A text whose white space is single spaces, with none at its end, and none at its beginning where
-- it stands behind white space.
unfoldable pub tidy : Bool → Bytes → Bool
tidy behind [] = not behind
tidy behind (c ∷ s) =
    let spaced = tidy true s in
    let words = tidy false s in if is_space c then not behind && c == b' ' && spaced else words

-- A byte that opens no quoted string, comment or pair.
abbrev pub IsUnquoted : ℕ → Type 0
IsUnquoted c = (c ≢ b'"') × (c ≢ b'\\') × (c ≢ b'(')

-- The rounds of `normalizeSpace` on a byte of a word, behind a word or at the beginning, on white
-- space, and on the first byte of a later word.
word_round :
    (out : Bytes) (before c : ℕ) (s : Bytes)
    → (ltb 0 (length out) && is_space before ≡ false)
    → is_space c ≡ false
    → normalize_loop out before (c ∷ s) ≡ normalize_loop (out ++ c ∷ []) c s
unfolding normalize_loop
word_round out before c s h k = rw (k, h)

space_round :
    (out : Bytes) (before c : ℕ) (s : Bytes)
    → is_space c ≡ true
    → normalize_loop out before (c ∷ s) ≡ normalize_loop out c s
unfolding normalize_loop
space_round out before c s h = rw h

gap_round :
    (out : Bytes) (before c : ℕ) (s : Bytes)
    → (ltb 0 (length out) && is_space before ≡ true)
    → is_space c ≡ false
    → normalize_loop out before (c ∷ s) ≡ normalize_loop (out ++ b' ' ∷ c ∷ []) c s
unfolding normalize_loop
gap_round out before c s h k = rw (k, h)

longer : (out s : Bytes) (c : ℕ) → ltb 0 (length (out ++ c ∷ s)) ≡ true
longer out s c = ground (arith, length-append out (c ∷ s))

-- The first byte of a text in normal form is a byte of a word or a single space.
tidy_space :
    (c d : ℕ) (s : Bytes)
    → is_space c ≡ true
    → tidy false (c ∷ d ∷ s) ≡ true
    → (c ≡ b' ') × (is_space d ≡ false) × (tidy false s ≡ true)
unfolding tidy
tidy_space c d s h t = ground arith

tidy_word :
    (c : ℕ) (s : Bytes) → is_space c ≡ false → tidy false (c ∷ s) ≡ true → tidy false s ≡ true
unfolding tidy
tidy_word c s h t = ground arith

no_last_space : (c : ℕ) → is_space c ≡ true → tidy false (c ∷ []) ≢ true
unfolding tidy
no_last_space c h = λ t. ground arith

-- Behind a text in normal form, further white space is dropped.
module _ (tail : Bytes)
    (dropped : (out : Bytes) (before : ℕ) → normalize_loop out before tail ≡ out) where
  normalize_loop-tidy :
      (out : Bytes) (before : ℕ) (s : Bytes)
      → is_space before ≡ false
      → ltb 0 (length out) ≡ true
      → tidy false s ≡ true
      → normalize_loop out before (s ++ tail) ≡ out ++ s
  normalize_loop-tidy out before [] h k t = dropped out before ∙ sym (append-nil out)
  normalize_loop-tidy out before (c ∷ []) h k t = elim (Bool-cases (is_space c)) [
    | inl e ↦ absurd (no_last_space c e t)
    | inr e ↦ word_round out before c tail (rw (h, k) refl) e ∙ dropped (out ++ c ∷ []) c
  ]
  normalize_loop-tidy out before (c ∷ d ∷ s) h k t = elim (Bool-cases (is_space c)) [
    | inl e ↦
        let (same, word, rest) = tidy_space c d s e t in
        space_round out before c (d ∷ (s ++ tail)) e
        ∙ gap_round out c d (s ++ tail) (rw (k, e) refl) word
        ∙ normalize_loop-tidy (out ++ b' ' ∷ d ∷ []) d s word (longer out (d ∷ []) b' ') rest
        ∙ append_assoc out (b' ' ∷ d ∷ []) s
        ∙ ap (λ b. out ++ b ∷ d ∷ s) (sym same)
    | inr e ↦
        word_round out before c (d ∷ (s ++ tail)) (rw (h, k) refl) e
        ∙ normalize_loop-tidy (out ++ c ∷ []) c (d ∷ s) e (longer out [] c)
            (tidy_word c (d ∷ s) e t)
        ∙ append_assoc out (c ∷ []) (d ∷ s)
  ]

  pub normalize_space-append : (s : Bytes) → tidy true s ≡ true → normalize_space (s ++ tail) ≡ s
  unfolding normalize_space tidy
  normalize_space-append [] t = cc
  normalize_space-append (c ∷ s) t =
      let word : is_space c ≡ false = ground arith in
      let rest : tidy false s ≡ true = unfold tidy in ground arith in
      word_round [] 0 c (s ++ tail) refl word ∙ normalize_loop-tidy (c ∷ []) c s word refl rest

pub normalize_space_lem : (s : Bytes) → tidy true s ≡ true → normalize_space s ≡ s
normalize_space_lem s t =
    ap normalize_space (sym (append-nil s))
    ∙ normalize_space-append [] (λ out before. done out before) s t
  where
    done : (out : Bytes) (before : ℕ) → normalize_loop out before [] ≡ out
    done out before = unfold normalize_loop in refl

pub normalize_space-space : (s : Bytes) → tidy true s ≡ true → normalize_space (s ++ b' ' ∷ []) ≡ s
normalize_space-space s t = normalize_space-append (b' ' ∷ []) done s t
  where
    done : (out : Bytes) (before : ℕ) → normalize_loop out before (b' ' ∷ []) ≡ out
    done out before = unfold normalize_loop is_space in refl

-- Two texts in normal form, with a space between them.
pub tidy-append :
    (behind : Bool) (s t : Bytes)
    → tidy behind s ≡ true
    → tidy true t ≡ true
    → tidy behind (s ++ b' ' ∷ t) ≡ true
unfolding tidy is_space
tidy-append behind [] t h k = ground arith
tidy-append behind (c ∷ s) t h k = ground (arith, tidy-append true s t, tidy-append false s t)

-- A text with no white space.
pub tidy_words : (s : Bytes) → All (λ c. is_space c ≡ false) s → tidy false s ≡ true
unfolding tidy
tidy_words [] h = refl
tidy_words (c ∷ s) (h, k) = rw h (tidy_words s k)

pub tidy_text : (s : Bytes) → 0 < length s → All (λ c. is_space c ≡ false) s → tidy true s ≡ true
unfolding tidy
tidy_text [] l h = absurd (omega arith)
tidy_text (c ∷ s) l (h, k) = rw h (tidy_words s k)

pub normalize_space-nil : normalize_space [] ≡ []
unfolding normalize_space normalize_loop
normalize_space-nil = refl

-- No byte begins a quoted string, a comment or a pair.
unquote_loop_lem :
    (q : Quoting) (s : Bytes)
    → q.quote ≡ false
    → q.comments ≡ 0
    → q.escaped ≡ false
    → All IsUnquoted s
    → (unquote_loop q s).out ≡ q.out ++ s
unfolding unquote_loop
unquote_loop_lem q [] a b c h = sym (append-nil q.out)
unquote_loop_lem q (x ∷ s) a b c (h, k) =
    let step : unquote_byte q x ≡ put q x = unfold unquote_byte in ground arith in
    ap (λ r. (unquote_loop r s).out) step
    ∙ unquote_loop_lem (put q x) s a b c k
    ∙ append_assoc q.out (x ∷ []) s

pub unquote_pairs_lem : (s : Bytes) → All IsUnquoted s → unquote_pairs s ≡ s
unfolding unquote_pairs
unquote_pairs_lem s h = unquote_loop_lem _ s refl refl refl h
