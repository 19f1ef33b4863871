-- ===== src/Io/Copy.antt =====
-- gitdiff/io.go: `copyFrom` copies the source from an offset on.
use go_gitdiff.Base.{
  ℕ, zero, suc, ◌+◌, ◌-◌, ◌<◌, ◌≤◌, ◌≡◌, refl, sym, ap, inl, inr, Option, none, some, List, [], ◌∷◌,
  ◌++◌, append-nil, append_assoc, Bytes, length, take, drop, ◌∙◌, length-take, length-drop,
  take-append-drop, arith, ◌⊎◌, Option-cases,
}
use native.Mathlib.Decide.{dec_lt, ℕ_discrete}
use go_gitdiff.Errors.{Error, eof}
use go_gitdiff.Io.{
  ReaderAt, Writer, ReadsAt, Appends, copy_from_loop, copy_from, byte_buffer_size, again, stop,
  copy_end, copy_written, copy_read,
}
use go_gitdiff.Io.Laws.{drop_all, take_all}

pub drop-drop {ℓ} : {A : Type ℓ} (m n : ℕ) (xs : List A) → drop n (drop m xs) ≡ drop (m + n) xs
drop-drop zero n xs = ap (λ k. drop k xs) (omega arith)
drop-drop (suc m) n [] = drop_all n [] (omega arith) ∙ sym (drop_all (suc m + n) [] (omega arith))
drop-drop (suc m) n (x ∷ xs) =
    drop-drop m n xs
    ∙ ap (λ k. drop k (x ∷ xs)) (let e : suc (m + n) ≡ suc m + n = omega arith in e)

-- One round over a writer that takes the bytes read, over one that fails, and with nothing read.
copy_read_lem :
    {W : Type 0} (write : Writer W) (w w' : W) (written off : ℕ) (b : Bytes) (rerr : Option Error)
    → write w b ≡ (w', length b, none)
    → 0 < length b
    → copy_read write w written off (b, rerr)
      ≡ copy_end w' (written + length b) (off + length b) rerr
unfolding copy_read copy_written
copy_read_lem write w w' written off b rerr e h = rw (e, copy_read) (ground arith)

copy_read_failed :
    {W : Type 0} (write : Writer W) (w w' : W) (written off n : ℕ) (b : Bytes) (e : Error)
    (rerr : Option Error)
    → write w b ≡ (w', n, some e)
    → 0 < length b
    → copy_read write w written off (b, rerr) ≡ stop w' (written + n) (some e)
unfolding copy_read copy_written
copy_read_failed write w w' written off n b e rerr h k = rw (h, copy_read) (ground arith)

copy_read_empty :
    {W : Type 0} (write : Writer W) (w : W) (written off : ℕ) (b : Bytes) (rerr : Option Error)
    → length b ≡ 0
    → copy_read write w written off (b, rerr) ≡ copy_end w written off rerr
unfolding copy_read
copy_read_empty write w written off b rerr h = ground arith

-- The writer after a copy from `off` on, and what is reported.
record Copied {W : Type 0} (contents : W → Bytes) (s : Bytes) (w : W) (written off : ℕ)
    (r : W × ℕ × Option Error) : Type 0 where
  pub whole : contents r.0 ≡ contents w ++ drop off s
  pub counted : r.1 ≡ written + length (drop off s)
  pub no_error : r.2 ≡ none

-- A write failed behind `done` bytes, which are written: the writer is the one that the failed write
-- left, and its count and error are passed on.
pub record WriteFailed {W : Type 0} (write : Writer W) (contents : W → Bytes) (s : Bytes) (w : W)
    (written off : ℕ) (r : W × ℕ × Option Error) : Type 0 where
  pub done : ℕ
  pub writer : W
  pub text : Bytes
  pub count : ℕ
  pub error : Error
  pub before : contents writer ≡ contents w ++ take done (drop off s)
  pub some_text : 0 < length text
  pub next : text ≡ take (length text) (drop (off + done) s)
  pub failed : write writer text ≡ (r.0, count, some error)
  pub reported : r.1 ≡ written + done + count
  pub returned : r.2 ≡ some error

take-append-take {ℓ} :
    {A : Type ℓ} (m n : ℕ) (xs : List A) → take m xs ++ take n (drop m xs) ≡ take (m + n) xs
take-append-take zero n xs = ap (λ k. take k xs) (omega arith)
take-append-take (suc m) n [] =
    take_all n [] (omega arith) ∙ sym (take_all (suc m + n) [] (omega arith))
take-append-take (suc m) n (x ∷ xs) =
    let e : suc (m + n) ≡ suc m + n = omega arith in
    ap (◌∷◌ x) (take-append-take m n xs) ∙ ap (λ k. take k (x ∷ xs)) e

-- A read of a source either fills the buffer, or gives what is left and reports the end.
read_cases :
    (read : ReaderAt) (s : Bytes)
    → ReadsAt read s
    → (n off : ℕ)
    → ((off + n ≤ length s) × (read n off ≡ (take n (drop off s), none)))
      ⊎ (read n off ≡ (drop off s, some eof))
read_cases read s reads n off = elim (dec_lt (off + n) (length s)) [
  | yes p ↦ inl (omega arith, reads.inside n off p)
  | no p ↦ elim (ℕ_discrete (off + n) (length s)) [
    | no q ↦ inr (reads.beyond n off (omega arith))
    | yes e ↦ elim (reads.at_end n off e) [
      | inr r ↦ inr r
      | inl r ↦
          let all = take_all n (drop off s) (omega (arith, length-drop off s)) in
          inl (omega arith, r ∙ ap (λ b. (b, none)) (sym all))
    ]
  ]
]

module _ {W : Type 0} (write : Writer W) (read : ReaderAt) (contents : W → Bytes) (s : Bytes)
    (appends : Appends write contents) (reads : ReadsAt read s) where
  -- The result of a write of `b` with no error, whole.
  written_whole :
      (w : W) (b : Bytes) → (write w b).2 ≡ none → write w b ≡ ((write w b).0, length b, none)
  written_whole w b fine = λ i. ((write w b).0, appends.count w b fine i, fine i)

  Copied-nil :
      (w : W) (written off : ℕ)
      → length s ≤ off
      → Copied contents s w written off (w, written, none)
  Copied-nil w written off h = record {
    whole = rw (drop_all off s h, append-nil);
    counted = rw (drop_all off s h) (omega arith);
    no_error = refl;
  }

  Copied-last :
      (w : W) (written off : ℕ)
      → (write w (drop off s)).2 ≡ none
      → Copied contents s w written off
          ((write w (drop off s)).0, written + length (drop off s), none)
  Copied-last w written off fine = record {
    whole = appends.grows w (drop off s) fine;
    counted = refl;
    no_error = refl;
  }

  Copied-more :
      (w : W) (written off n : ℕ) (r : W × ℕ × Option Error)
      → off + n ≤ length s
      → (write w (take n (drop off s))).2 ≡ none
      → Copied contents s (write w (take n (drop off s))).0 (written + n) (off + n) r
      → Copied contents s w written off r
  Copied-more w written off n r h fine c = record {
    whole =
        c.whole
        ∙ ap (λ x. x ++ drop (off + n) s) (appends.grows w _ fine)
        ∙ append_assoc (contents w) _ _
        ∙ ap (λ x. contents w ++ (take n (drop off s) ++ x)) (sym (drop-drop off n s))
        ∙ ap (λ x. contents w ++ x) (take-append-drop n (drop off s));
    counted = omega (arith, c.counted, length-drop off s, length-drop (off + n) s);
    no_error = c.no_error;
  }

  WriteFailed-more :
      (w : W) (written off n : ℕ) (r : W × ℕ × Option Error)
      → (write w (take n (drop off s))).2 ≡ none
      → WriteFailed write contents s (write w (take n (drop off s))).0 (written + n) (off + n) r
      → WriteFailed write contents s w written off r
  WriteFailed-more w written off n r fine f = record {
    done = n + f.done;
    writer = f.writer;
    text = f.text;
    count = f.count;
    error = f.error;
    before =
        f.before
        ∙ ap (λ x. x ++ take f.done (drop (off + n) s)) (appends.grows w _ fine)
        ∙ append_assoc (contents w) _ _
        ∙ ap (λ x. contents w ++ (take n (drop off s) ++ take f.done x)) (sym (drop-drop off n s))
        ∙ ap (λ x. contents w ++ x) (take-append-take n f.done (drop off s));
    some_text = f.some_text;
    next =
        let e : off + n + f.done ≡ off + (n + f.done) = omega arith in
        f.next ∙ ap (λ k. take (length f.text) (drop k s)) e;
    failed = f.failed;
    reported = omega (arith, f.reported);
    returned = f.returned;
  }

  length_inside : (off n : ℕ) → off + n ≤ length s → length (take n (drop off s)) ≡ n
  length_inside off n h = omega (arith, length-take n (drop off s), length-drop off s)

  -- The first round of the loop, by what it reads.
  module _ (size fuel : ℕ) (w : W) (written off : ℕ) where
    loop_again :
        (w' : W) (written' off' : ℕ)
        → copy_read write w written off (read size off) ≡ again w' written' off'
        → copy_from_loop write read size (suc fuel) w written off
          ≡ copy_from_loop write read size fuel w' written' off'
    unfolding copy_from_loop
    loop_again w' written' off' e = rw (e, copy_from_loop)

    loop_stop :
        (w' : W) (written' : ℕ) (o : Option Error)
        → copy_read write w written off (read size off) ≡ stop w' written' o
        → copy_from_loop write read size (suc fuel) w written off ≡ (w', written', o)
    unfolding copy_from_loop
    loop_stop w' written' o e = rw (e, copy_from_loop)

    -- The round's write fails.
    loop-WriteFailed :
        (b : Bytes) (rerr : Option Error) (e : Error)
        → read size off ≡ (b, rerr)
        → b ≡ take (length b) (drop off s)
        → 0 < length b
        → (write w b).2 ≡ some e
        → WriteFailed write contents s w written off
            (copy_from_loop write read size (suc fuel) w written off)
    loop-WriteFailed b rerr e r prefix h bad =
        let whole : write w b ≡ ((write w b).0, (write w b).1, some e) =
          λ i. ((write w b).0, (write w b).1, bad i) in
        let round =
          copy_read_failed write w (write w b).0 written off (write w b).1 b e rerr whole h in
        rw
          (loop_stop (write w b).0 (written + (write w b).1) (some e)
            (ap (copy_read write w written off) r ∙ round))
          (record {
            done = 0;
            writer = w;
            text = b;
            count = (write w b).1;
            error = e;
            before = sym (append-nil (contents w));
            some_text = h;
            next =
                let same : off ≡ off + 0 = omega arith in
                prefix ∙ ap (λ k. take (length b) (drop k s)) same;
            failed = whole;
            reported = omega arith;
            returned = refl;
          })

    -- The round's write takes the last bytes.
    loop_last :
        read size off ≡ (drop off s, some eof)
        → 0 < length (drop off s)
        → (write w (drop off s)).2 ≡ none
        → Copied contents s w written off (copy_from_loop write read size (suc fuel) w written off)
    unfolding copy_end
    loop_last r h fine =
        let b = drop off s in
        let round =
          copy_read_lem write w (write w b).0 written off b (some eof) (written_whole w b fine) h in
        rw
          (loop_stop (write w b).0 (written + length b) none
            (ap (copy_read write w written off) r ∙ round))
          (Copied-last w written off fine)

    -- Nothing is left to read.
    loop_empty :
        read size off ≡ (drop off s, some eof)
        → length s ≤ off
        → Copied contents s w written off (copy_from_loop write read size (suc fuel) w written off)
    unfolding copy_end
    loop_empty r h =
        let round =
          copy_read_empty write w written off (drop off s) (some eof)
            (omega (arith, length-drop off s)) in
        rw (loop_stop w written none (ap (copy_read write w written off) r ∙ round))
          (Copied-nil w written off h)

    -- The round's write takes a full buffer.
    loop_full :
        off + size ≤ length s
        → 0 < size
        → read size off ≡ (take size (drop off s), none)
        → (write w (take size (drop off s))).2 ≡ none
        → copy_from_loop write read size (suc fuel) w written off
          ≡ copy_from_loop write read size fuel
              (write w (take size (drop off s))).0
              (written + size)
              (off + size)
    unfolding copy_end
    loop_full inside hs r fine =
        let b = take size (drop off s) in
        let full = length_inside off size inside in
        let round =
          copy_read_lem write w (write w b).0 written off b none (written_whole w b fine)
            (omega arith) in
        loop_again (write w b).0 (written + size) (off + size) (
          ap (copy_read write w written off) r
          ∙ round
          ∙ ap (λ n. again (write w b).0 (written + n) (off + n)) full)

  copy_from_loop-Copied :
      (size fuel : ℕ) (w : W) (written off : ℕ)
      → 0 < size
      → length s - off < fuel
      → Copied contents s w written off (copy_from_loop write read size fuel w written off)
        ⊎ WriteFailed write contents s w written off
            (copy_from_loop write read size fuel w written off)
  copy_from_loop-Copied size zero w written off hs hf = absurd (omega arith)
  copy_from_loop-Copied size (suc fuel) w written off hs hf =
      elim (read_cases read s reads size off) [
        | inl (inside, r) ↦
            let b = take size (drop off s) in
            let full = length_inside off size inside in
            let prefix : b ≡ take (length b) (drop off s) =
              ap (λ n. take n (drop off s)) (sym full) in
            elim (Option-cases (write w b).2) [
              | inr (e, bad) ↦
                  inr (loop-WriteFailed size fuel w written off b none e r prefix (omega arith) bad)
              | inl fine ↦
                  rw (loop_full size fuel w written off inside hs r fine)
                    (elim (copy_from_loop-Copied size fuel (write w b).0 (written + size)
                      (off + size) hs (omega arith)) [
                        | inl c ↦ inl (Copied-more w written off size _ inside fine c)
                        | inr f ↦ inr (WriteFailed-more w written off size _ fine f)
                      ])
            ]
        | inr r ↦ elim (dec_lt off (length s)) [
          | no nothing ↦ inl (loop_empty size fuel w written off r (omega arith))
          | yes left ↦
              let b = drop off s in
              let some_left : 0 < length b = omega (arith, length-drop off s) in
              let prefix : b ≡ take (length b) b = sym (take_all (length b) b (omega arith)) in
              elim (Option-cases (write w b).2) [
                | inr (e, bad) ↦
                    inr (
                      loop-WriteFailed size fuel w written off b (some eof) e r prefix some_left
                        bad)
                | inl fine ↦ inl (loop_last size fuel w written off r some_left fine)
              ]
        ]
      ]

  -- Over a reader and a writer that keep to their documentation, and given a round for each byte that
  -- is left and one more, `copyFrom` writes the source from `off` to its end and reports its length
  -- and no error; or a write of further bytes of the source failed behind those that are written,
  -- and it returns the error of that write and reports the bytes written before and by it.
  pub copy_from_lem :
      (fuel : ℕ) (w : W) (off : ℕ)
      → length s - off < fuel
      → ((contents (copy_from write read fuel w off).0 ≡ contents w ++ drop off s)
          × ((copy_from write read fuel w off).1 ≡ length (drop off s))
          × ((copy_from write read fuel w off).2 ≡ none))
        ⊎ WriteFailed write contents s w 0 off (copy_from write read fuel w off)
  unfolding copy_from
  copy_from_lem fuel w off h =
      elim (copy_from_loop-Copied byte_buffer_size fuel w 0 off (omega arith) h) [
        | inl c ↦ inl (c.whole, omega (arith, c.counted), c.no_error)
        | inr f ↦ inr f
      ]
