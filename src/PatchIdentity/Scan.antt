-- ===== src/PatchIdentity/Scan.antt =====
-- gitdiff/patch_identity.go: the loops of `ParsePatchIdentity` over the bytes of an address.
use go_gitdiff.Base.{
  ℕ, zero, suc, ◌+◌, ◌≤◌, ◌≡◌, ◌≢◌, refl, sym, ap, ◌∙◌, false, none, some, [], ◌∷◌, ◌++◌,
  append-nil, Bytes, All, length, take, drop, get_elem?, arith,
}
use go_gitdiff.PatchIdentity.{is_space, index_byte, scan_back, scan_forward, find_brackets}
use go_gitdiff.PatchIdentity.Normal.{IsUnquoted}

-- A byte that may stand in a name, and one that may stand in an email address.
abbrev pub IsNameByte : ℕ → Type 0
IsNameByte c = IsUnquoted c × (c ≢ b'@') × (c ≢ b'<') × (c ≢ b'>')

abbrev pub IsEmailByte : ℕ → Type 0
IsEmailByte c = IsUnquoted c × (is_space c ≡ false) × (c ≢ b'<') × (c ≢ b'>')

pub get_elem?-append : (p q : Bytes) (k : ℕ) → get_elem? (p ++ q) (length p + k) ≡ get_elem? q k
get_elem?-append [] q k = ap (get_elem? q) (omega arith)
get_elem?-append (c ∷ p) q k =
    let e : suc (length p) + k ≡ suc (length p + k) = omega arith in
    ap (get_elem? (c ∷ (p ++ q))) e ∙ get_elem?-append p q k

pub take-append : (p q : Bytes) → take (length p) (p ++ q) ≡ p
take-append [] q = refl
take-append (c ∷ p) q = ap (◌∷◌ c) (take-append p q)

pub drop-append : (p q : Bytes) → drop (length p) (p ++ q) ≡ q
drop-append [] q = refl
drop-append (c ∷ p) q = drop-append p q

-- The first `@` is the one behind bytes that are none.
pub index_byte-append :
    (p q : Bytes) (b : ℕ) → All (λ c. c ≢ b) p → index_byte (p ++ b ∷ q) b ≡ some (length p)
unfolding index_byte
index_byte-append [] q b h = ground arith
index_byte-append (c ∷ p) q b (h, k) = rw (index_byte-append p q b k) (ground arith)

pub index_byte-none : (p : Bytes) (b : ℕ) → All (λ c. c ≢ b) p → index_byte p b ≡ none
unfolding index_byte
index_byte-none [] b h = refl
index_byte-none (c ∷ p) b (h, k) = rw (index_byte-none p b k) (ground arith)

-- The loop over `end` stops at the closing bracket.
pub scan_forward-append :
    (end : ℕ) (m q : Bytes) → All IsEmailByte m → scan_forward end (m ++ b'>' ∷ q) ≡ end + length m
unfolding scan_forward
scan_forward-append end [] q h = ground arith
scan_forward-append end (c ∷ m) q (h, k) = ground (arith, scan_forward-append (end + 1) m q k)

-- The loop over `start` passes the bytes of an address and stops at the opening bracket.
scan_back_pass :
    (s : Bytes) (k c : ℕ)
    → get_elem? s k ≡ some c
    → IsEmailByte c
    → scan_back s (suc k) ≡ scan_back s k
unfolding scan_back
scan_back_pass s k c e h = ground arith

scan_back_stop : (s : Bytes) (k : ℕ) → get_elem? s k ≡ some b'<' → scan_back s (suc k) ≡ suc k
unfolding scan_back
scan_back_stop s k e = ground arith

All-get_elem? :
    (m q : Bytes) (k : ℕ)
    → All IsEmailByte m
    → suc k ≤ length m
    → (c : ℕ) × (get_elem? (m ++ q) k ≡ some c) × IsEmailByte c
All-get_elem? [] q k h l = absurd (omega arith)
All-get_elem? (c ∷ m) q zero (h, hs) l = (c, refl, h)
All-get_elem? (c ∷ m) q (suc k) (h, hs) l = All-get_elem? m q k hs (omega arith)

pub scan_back-append :
    (p m q : Bytes) (k : ℕ)
    → All IsEmailByte m
    → k ≤ length m
    → scan_back (p ++ b'<' ∷ (m ++ q)) (suc (length p + k)) ≡ suc (length p)
scan_back-append p m q zero h l =
    let s = p ++ b'<' ∷ (m ++ q) in
    ap (λ j. scan_back s (suc j)) (omega arith)
    ∙ scan_back_stop s (length p)
        (ap (get_elem? s) (omega arith) ∙ get_elem?-append p (b'<' ∷ (m ++ q)) 0)
scan_back-append p m q (suc k) h l =
    let s = p ++ b'<' ∷ (m ++ q) in
    let (c, at, ok) = All-get_elem? m q k h l in
    scan_back_pass s (length p + suc k) c (get_elem?-append p (b'<' ∷ (m ++ q)) (suc k) ∙ at) ok
    ∙ ap (scan_back s) (omega arith)
    ∙ scan_back-append p m q k h (omega arith)

-- Where no bracket comes, the loops go through to the ends of the text.
pub scan_back_start : (m : Bytes) (k : ℕ) → All IsEmailByte m → k ≤ length m → scan_back m k ≡ 0
scan_back_start m zero h l = unfold scan_back in refl
scan_back_start m (suc k) h l =
    let (c, at, ok) = All-get_elem? m [] k h l in
    scan_back_pass m k c (ap (λ s. get_elem? s k) (sym (append-nil m)) ∙ at) ok
    ∙ scan_back_start m k h (omega arith)

pub scan_forward_end :
    (end : ℕ) (m : Bytes) → All IsEmailByte m → scan_forward end m ≡ end + length m
unfolding scan_forward
scan_forward_end end [] h = omega arith
scan_forward_end end (c ∷ m) (h, k) = ground (arith, scan_forward_end (end + 1) m k)

pub get_elem?-length : (m : Bytes) → get_elem? m (length m) ≡ none
get_elem?-length [] = refl
get_elem?-length (c ∷ m) = get_elem?-length m

-- The loop that looks for brackets passes bytes that are none.
pub find_brackets-append :
    (i start : ℕ) (p q : Bytes)
    → All (λ c. (c ≢ b'<') × (c ≢ b'>')) p
    → find_brackets i start (p ++ q) ≡ find_brackets (i + length p) start q
unfolding find_brackets
find_brackets-append i start [] q h = ap (λ j. find_brackets j start q) (omega arith)
find_brackets-append i start (c ∷ p) q (h, k) =
    ground (arith, find_brackets-append (i + 1) start p q k)
