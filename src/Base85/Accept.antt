-- ===== src/Base85/Accept.antt =====
-- gitdiff/base85.go: which texts `base85Decode` accepts.
use go_gitdiff.Base.{
  ℕ, zero, suc, ◌+◌, ◌-◌, ◌*◌, ◌/◌, ◌%◌, ◌^◌, ◌≤◌, ◌<◌, ◌≡◌, sym, ap, none, some, [], ◌∷◌, ◌++◌,
  ◌⊎◌, inl, inr, ◌↔◌, Bytes, length, length-append, get_elem?, ◌==◌, ==_iff, arith, All, Bool-cases,
  Option-cases, if◌then◌else◌,
}
use go_gitdiff.Base85.{
  alphabet, Table, init_table, table, spill, finish_decode, decode_loop, base85_decode,
}
use go_gitdiff.Base85.Word.{length-spill, decode_more, decode_fifth, decode_invalid}

-- A byte of the alphabet.
abbrev pub IsLetter : ℕ → Type 0
IsLetter c = (i : ℕ) × (get_elem? alphabet i ≡ some c)

-- A key of the map that the loop fills was in the map before, or is a letter at its position.
init_table_sound :
    (cs : Bytes) (i : ℕ) (t : Table) (c b : ℕ)
    → init_table i cs t c ≡ some b
    → (t c ≡ some b) ⊎ ((j : ℕ) × (get_elem? cs j ≡ some c))
unfolding init_table
init_table_sound [] i t c b h = inl h
init_table_sound (x ∷ cs) i t c b h =
    elim (init_table_sound cs (i + 1) (λ y. if y == x then some i else t y) c b h) [
      | inr (j, e) ↦ inr (suc j, e)
      | inl e ↦ elim (Bool-cases (c == x)) [
        | inl same ↦ inr (0, ap some (sym ((==_iff c x).0 same)))
        | inr other ↦ inl (rw other at e)
      ]
    ]

-- A later letter may replace an entry, and never removes one.
init_table_keeps :
    (cs : Bytes) (i : ℕ) (t : Table) (c b : ℕ)
    → t c ≡ some b
    → (b' : ℕ) × (init_table i cs t c ≡ some b')
unfolding init_table
init_table_keeps [] i t c b h = (b, h)
init_table_keeps (x ∷ cs) i t c b h = elim (Bool-cases (c == x)) [
  | inl same ↦ init_table_keeps cs (i + 1) (λ y. if y == x then some i else t y) c i (rw same)
  | inr other ↦ init_table_keeps cs (i + 1) (λ y. if y == x then some i else t y) c b (rw other h)
]

init_table_complete :
    (cs : Bytes) (i : ℕ) (t : Table) (c j : ℕ)
    → get_elem? cs j ≡ some c
    → (b : ℕ) × (init_table i cs t c ≡ some b)
unfolding init_table
init_table_complete [] i t c j h = cc
init_table_complete (x ∷ cs) i t c zero h =
    init_table_keeps cs (i + 1) (λ y. if y == x then some i else t y) c i (ground arith)
init_table_complete (x ∷ cs) i t c (suc j) h =
    init_table_complete cs (i + 1) (λ y. if y == x then some i else t y) c j h

table-IsLetter : (c b : ℕ) → table c ≡ some b → IsLetter c
unfolding table
table-IsLetter c b h = elim (init_table_sound alphabet 0 (λ x. none) c b h) [
  | inl e ↦ cc
  | inr l ↦ l
]

letter_table : (c : ℕ) → IsLetter c → (b : ℕ) × (table c ≡ some b)
unfolding table
letter_table c (j, h) = init_table_complete alphabet 0 (λ x. none) c j h

-- What a run over `cs` that ends with no error has met, and how much it has written.
record Accepts (len : ℕ) (out : Bytes) (n : ℕ) (cs : Bytes) (written : Bytes) : Type 0 where
  letters : All IsLetter cs
  groups : (n + length cs) % 5 ≡ 0
  enough : len ≤ length out + (n + length cs) / 5 * 4
  filled : length written ≡ len

finish-Accepts :
    (len : ℕ) (out : Bytes) (n : ℕ)
    → n < 5
    → length out ≤ len
    → (finish_decode len out n).1 ≡ none
    → Accepts len out n [] (finish_decode len out n).0
unfolding finish_decode
finish-Accepts len out n hn ho h = record {
  letters = tt;
  groups = ground arith;
  enough = ground arith;
  filled = ground arith;
}

Accepts-more :
    (len : ℕ) (out : Bytes) (n c : ℕ) (cs written : Bytes)
    → IsLetter c
    → Accepts len out (n + 1) cs written
    → Accepts len out n (c ∷ cs) written
Accepts-more len out n c cs written l a = record {
  letters = (l, a.letters);
  groups = omega (arith, a.groups);
  enough = omega (arith, a.enough);
  filled = a.filled;
}

Accepts-fifth :
    (len : ℕ) (out : Bytes) (n c v : ℕ) (cs written : Bytes)
    → IsLetter c
    → n + 1 ≡ 5
    → length out ≤ len
    → Accepts len (out ++ spill 4 (len - length out) v) 0 cs written
    → Accepts len out n (c ∷ cs) written
Accepts-fifth len out n c v cs written l e ho a = record {
  letters = (l, a.letters);
  groups = omega (arith, a.groups);
  enough = omega (
    arith,
    a.enough,
    length-append out (spill 4 (len - length out) v),
    length-spill 4 (len - length out) v,
  );
  filled = a.filled;
}

fits :
    (len : ℕ) (out : Bytes) (v : ℕ)
    → length out ≤ len
    → length (out ++ spill 4 (len - length out) v) ≤ len
fits len out v h =
    omega
      (arith, length-append out (spill 4 (len - length out) v), length-spill 4 (len - length out) v)

decode_loop-Accepts :
    (cs : Bytes) (len i : ℕ) (out : Bytes) (v n : ℕ)
    → n < 5
    → length out ≤ len
    → (decode_loop len i out v n cs).1 ≡ none
    → Accepts len out n cs (decode_loop len i out v n cs).0
decode_loop-Accepts [] len i out v n hn ho h =
    unfold decode_loop in finish-Accepts len out n hn ho h
decode_loop-Accepts (c ∷ cs) len i out v n hn ho h = elim (Option-cases (table c)) [
  | inl miss ↦ cc (ap (λ r. r.1) (decode_invalid len i out v n c cs miss))
  | inr (d, hit) ↦ elim (Bool-cases (n + 1 == 5)) [
    | inl fifth ↦
        let go = decode_fifth len i out v n c d cs hit fifth in
        rw go (
          Accepts-fifth len out n c ((85 * v + d) % 2 ^ 32) cs _ (table-IsLetter c d hit)
            ((==_iff (n + 1) 5).0 fifth) ho
            (decode_loop-Accepts cs len (i + 1)
              (out ++ spill 4 (len - length out) ((85 * v + d) % 2 ^ 32)) 0 0 (omega arith)
              (fits len out _ ho) (rw go at h)))
    | inr more ↦
        let go = decode_more len i out v n c d cs hit more in
        rw go (
          Accepts-more len out n c cs _ (table-IsLetter c d hit) (
            decode_loop-Accepts cs len (i + 1) out ((85 * v + d) % 2 ^ 32) (n + 1) (ground arith) ho
              (rw go at h)))
  ]
]

finish_accepts : (len : ℕ) (out : Bytes) → len ≤ length out → (finish_decode len out 0).1 ≡ none
unfolding finish_decode
finish_accepts len out h = ground arith

decode_loop_complete :
    (cs : Bytes) (len i : ℕ) (out : Bytes) (v n : ℕ)
    → n < 5
    → length out ≤ len
    → All IsLetter cs
    → (n + length cs) % 5 ≡ 0
    → len ≤ length out + (n + length cs) / 5 * 4
    → (decode_loop len i out v n cs).1 ≡ none
decode_loop_complete [] len i out v n hn ho l g e =
    let z : n ≡ 0 = omega arith in unfold decode_loop in rw z (finish_accepts len out (omega arith))
decode_loop_complete (c ∷ cs) len i out v n hn ho (l, ls) g e =
    let (d, hit) = letter_table c l in
    elim (Bool-cases (n + 1 == 5)) [
      | inl fifth ↦
          let five = (==_iff (n + 1) 5).0 fifth in
          let out' = out ++ spill 4 (len - length out) ((85 * v + d) % 2 ^ 32) in
          rw (decode_fifth len i out v n c d cs hit fifth) (
            decode_loop_complete cs len (i + 1) out' 0 0 (omega arith) (fits len out _ ho) ls
              (omega arith)
              (omega (
                arith,
                length-append out (spill 4 (len - length out) ((85 * v + d) % 2 ^ 32)),
                length-spill 4 (len - length out) ((85 * v + d) % 2 ^ 32),
              )))
      | inr more ↦ rw (decode_more len i out v n c d cs hit more) (
          decode_loop_complete cs len (i + 1) out ((85 * v + d) % 2 ^ 32) (n + 1) (ground arith) ho
            ls (omega arith) (omega arith))
    ]

-- `base85Decode` returns no error exactly when every byte is a letter of the alphabet, the letters
-- come in whole groups of five, and the groups hold the bytes that `dst` asks for; it has then
-- filled `dst`.
pub base85_decode_accepts :
    (len : ℕ) (src : Bytes)
    → ((base85_decode len src).1 ≡ none
        ↔ (All IsLetter src × (length src % 5 ≡ 0) × (len ≤ length src / 5 * 4)))
      × ((base85_decode len src).1 ≡ none → length (base85_decode len src).0 ≡ len)
unfolding base85_decode
base85_decode_accepts len src = (
  (
    λ h.
        let a = decode_loop-Accepts src len 0 [] 0 0 (omega arith) (omega arith) h in
        (a.letters, omega (arith, a.groups), omega (arith, a.enough)),
    λ (l, g, e).
        decode_loop_complete src len 0 [] 0 0 (omega arith) (omega arith) l (omega arith)
          (omega arith),
  ),
  λ h. (decode_loop-Accepts src len 0 [] 0 0 (omega arith) (omega arith) h).filled,
)
