-- ===== src/PatchHeader.antt =====
-- gitdiff/patch_header.go. Of the standard library, package time, `strconv.ParseInt`, the functions of
-- package strings that know Unicode, `quotedprintable`, `mail.ReadMessage` and `bufio.Scanner` are
-- parameters. A scanner is the lines that its calls of `Scan` give, and the error that `Err` reports
-- when they have ended.
pub mod Subject
pub mod Body
pub mod Parse
use go_gitdiff.Base.{
  ℕ, zero, suc, ◌+◌, ◌-◌, Bool, true, false, ◌&&◌, ◌||◌, Option, none, some, List, [], ◌∷◌, ◌++◌,
  Bytes, codes, length, take, drop, ltb, ◌==◌, equal, if◌then◌else◌,
}
use go_gitdiff.Base.Int.{ℤ}
use go_gitdiff.Base.Strings.{strip_prefix, has_prefix, cut}
use go_gitdiff.PatchIdentity.{PatchIdentity, index_byte, byte_at, parse_patch_identity}

pub record PatchHeader (T : Type 0) : Type 0 where
  pub sha : Bytes
  pub author : Option PatchIdentity
  pub author_date : T
  pub committer : Option PatchIdentity
  pub committer_date : T
  pub title : Bytes
  pub body : Bytes
  pub subject_prefix : Bytes
  pub body_appendix : Bytes

-- `Message`, on a pointer that may be nil.
unfoldable pub header_message : {T : Type 0} → Option (PatchHeader T) → Bytes
header_message none = []
header_message (some h) = h.title ++ (if equal h.body [] then [] else codes "\n\n" ++ h.body)

-- `SubjectCleanMode` is an int; `other_mode` stands for the values that are no mode.
pub data SubjectCleanMode : Type 0 where
  clean_whitespace clean_all clean_patch_only : SubjectCleanMode
  other_mode : ℕ → SubjectCleanMode

-- The options are this mode, and an option is a function on them.
abbrev pub PatchHeaderOption : Type 0
PatchHeaderOption = SubjectCleanMode → SubjectCleanMode

abbrev pub with_subject_clean_mode : SubjectCleanMode → PatchHeaderOption
with_subject_clean_mode m opts = m

unfoldable pub apply_options : SubjectCleanMode → List PatchHeaderOption → SubjectCleanMode
apply_options m [] = m
apply_options m (f ∷ fs) = apply_options (f m) fs

-- What goes wrong; `external` is an error of the mail reader or a scanner. After
-- `unknown_clean_mode` the call has panicked.
pub data HeaderError : Type 0 where
  bad_identity unrecognized_format : HeaderError
  unknown_date : Bytes → HeaderError
  external : ℕ → HeaderError
  unknown_clean_mode : ℕ → HeaderError

pub data Result {ℓ} (A : Type ℓ) : Type ℓ where
  returned : A → Result A
  rejected : HeaderError → Result A

-- The lines that a scanner has left, and whether a call of `Scan` has found none.
abbrev pub Scanned : Type 0
Scanned = List Bytes × Bool

abbrev pub Scanner : Type 0
Scanner = List Bytes × Option ℕ

-- `Err`
abbrev pub scan_error : Option ℕ → Bool → Option HeaderError
scan_error (some e) true = some (external e)
scan_error (some e) false = none
scan_error none ended = none

-- `strings.ReplaceAll` with the empty string; `skip` bytes of an occurrence are left to pass.
unfoldable pub remove_all : Bytes → ℕ → Bytes → Bytes
remove_all old skip [] = []
remove_all old (suc skip) (c ∷ s) = remove_all old skip s
remove_all old zero (c ∷ s) =
    let passed = remove_all old (length old - 1) s in
    let kept = c ∷ remove_all old zero s in if has_prefix old (c ∷ s) then passed else kept

-- `strings.Contains`
unfoldable pub contains : Bytes → Bytes → Bool
contains sub s = elim (cut sub s) [ none ↦ false | some parts ↦ true ]

-- A case of the switch of `cleanSubject`: how many bytes it removes, 0 for none.
unfoldable pub removable_mark : Bytes → ℕ
removable_mark (c ∷ e ∷ colon ∷ s) = if (e == b'e' || e == b'E') && colon == b':' then 3 else 0
removable_mark _ = 0

unfoldable pub removable_brackets : Bool → Bytes → ℕ
removable_brackets all s = elim (index_byte s b']') [
  | none ↦ 0
  | some i ↦
      if ltb 0 i then (if all || contains (codes "PATCH") (take (i + 1) s) then i + 1 else 0) else 0
]

unfoldable pub removable : Bool → Bytes → ℕ
unfolding removable_mark removable_brackets
removable all [] = 0
removable all (c ∷ s) =
    if c == b'r' || c == b'R'
    then removable_mark (c ∷ s)
    else if c == b' ' || c == b'\t' || c == b':'
    then 1
    else if c == b'['
    then removable_brackets all (c ∷ s)
    else 0

-- The loop of `cleanSubject` over `rest`, which begins at `at`, with fuel; an empty rest ends it.
unfoldable pub clean_subject_loop : ℕ → Bool → ℕ → Bytes → ℕ
clean_subject_loop zero all at rest = at
clean_subject_loop (suc fuel) all at rest =
    let n = removable all rest in
    let more = clean_subject_loop fuel all (at + n) (drop n rest) in if n == 0 then at else more

-- The variables of `scanMessageBody`; `in_appendix` is `c == &appendix`.
pub record BodyParts : Type 0 where
  pub body : Bytes
  pub appendix : Bytes
  pub in_appendix : Bool
  pub empty : ℕ

abbrev pub no_parts : BodyParts
no_parts = record { body = []; appendix = []; in_appendix = false; empty = 0 }

-- The writes to `c`.
abbrev pub add_text : Bytes → ℕ → Bytes → Bytes
add_text c empty line =
    (c ++ (if ltb 0 (length c) then 10 ∷ (if ltb 0 empty then 10 ∷ [] else []) else [])) ++ line

abbrev pub write_line : BodyParts → Bytes → BodyParts
write_line m line = record m {
  body = if m.in_appendix then m.body else add_text m.body m.empty line;
  appendix = if m.in_appendix then add_text m.appendix m.empty line else m.appendix;
  empty = 0;
}

-- `strings.TrimPrefix`
unfoldable pub trim_prefix : Bytes → Bytes → Bytes
trim_prefix p s = elim (strip_prefix p s) [ none ↦ s | some rest ↦ rest ]

-- The body of the loop of `scanMessageBody`, on a trimmed line.
unfoldable pub take_body_line : Bool → BodyParts → Bytes → BodyParts
take_body_line separate m line =
    if equal line []
    then record m { empty = m.empty + 1 }
    else if separate && (if m.in_appendix then false else equal line (codes "---"))
    then record m { in_appendix = true }
    else write_line m line

module _ (trim_right : Bytes → Bytes) where
  unfoldable pub body_loop : Bytes → Bool → BodyParts → List Bytes → BodyParts
  unfolding take_body_line
  body_loop indent separate m [] = m
  body_loop indent separate m (line ∷ ls) =
      body_loop indent separate (take_body_line separate m (trim_prefix indent (trim_right line)))
        ls

  -- `scanMessageBody`, which calls `Scan` until there is no line.
  unfoldable pub scan_message_body : List Bytes → Bytes → Bool → Bytes × Bytes
  scan_message_body ls indent separate =
      let m = body_loop indent separate no_parts ls in (m.body, m.appendix)
