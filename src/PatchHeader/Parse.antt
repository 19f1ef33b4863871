-- ===== src/PatchHeader/Parse.antt =====
-- gitdiff/patch_header.go: dates, subjects, and the headers of the pretty formats and of mail.
use go_gitdiff.Base.{
  ℕ, ◌+◌, Bool, true, false, Option, none, some, List, [], ◌∷◌, ◌++◌, Bytes, codes, length, take,
  drop, ltb, ◌==◌, equal, if◌then◌else◌,
}
use go_gitdiff.Base.Int.{ℤ}
use go_gitdiff.Base.Strings.{strip_prefix, has_prefix}
use go_gitdiff.PatchIdentity.{PatchIdentity, index_byte, parse_patch_identity}
use go_gitdiff.PatchHeader.{
  PatchHeader, SubjectCleanMode, clean_whitespace, clean_all, clean_patch_only, other_mode,
  PatchHeaderOption, apply_options, bad_identity, unrecognized_format, unknown_date,
  unknown_clean_mode, Result, returned, rejected, Scanned, Scanner, scan_error, remove_all,
  clean_subject_loop, trim_prefix, scan_message_body,
}

-- The functions of package strings that know Unicode: `TrimSpace`, `TrimLeftFunc` and `TrimRightFunc`
-- with `unicode.IsSpace`, and `IndexFunc` with its negation.
pub record Unicode : Type 0 where
  pub trim_space : Bytes → Bytes
  pub trim_left : Bytes → Bytes
  pub trim_right : Bytes → Bytes
  pub index_text : Bytes → Option ℕ

-- Package time, with `strconv.ParseInt` of base 10: `zone_of` is the location of a time that
-- `time.Parse` reads with the layout -0700, and `unix_in` a Unix time in a location.
pub record Dates (T Z : Type 0) : Type 0 where
  pub zero_time : T
  pub parse_in_local : Bytes → Bytes → Option T
  pub parse_int : Bytes → Option ℤ
  pub unix : ℤ → T
  pub zone_of : Bytes → Option Z
  pub unix_in : ℤ → Z → T

-- Package mail: a message, its headers by their names, and the scanner over its body.
pub record Mails (M : Type 0) : Type 0 where
  pub read_message : Bytes → Result M
  pub get : M → Bytes → Bytes
  pub scan_body : M → Scanner

-- The formats of `ParsePatchDate`, in their order.
abbrev pub date_formats : List Bytes
date_formats =
    codes "2006-01-02 15:04:05 -0700"
    ∷ codes "2006-01-02T15:04:05-07:00"
    ∷ codes "Mon, 2 Jan 2006 15:04:05 -0700"
    ∷ codes "2006-01-02"
    ∷ codes "Mon Jan 2 15:04:05 2006 -0700"
    ∷ codes "Mon Jan 2 15:04:05 2006"
    ∷ []

module _ {T Z : Type 0} (dates : Dates T Z) where
  unfoldable pub first_date : List Bytes → Bytes → Option T
  first_date [] s = none
  first_date (f ∷ fs) s = elim (dates.parse_in_local f s) [
    | some t ↦ some t
    | none ↦ first_date fs s
  ]

  pub zoned_date : Option ℤ → Option Z → Option T
  zoned_date (some u) (some z) = some (dates.unix_in u z)
  zoned_date (some u) none = none
  zoned_date none z = none

  -- The raw format, by the index of the space.
  pub raw_date : Bytes → Option ℕ → Option T
  raw_date s none = none
  raw_date s (some i) =
      if ltb 0 i
      then zoned_date (dates.parse_int (take i s)) (dates.zone_of (drop (i + 1) s))
      else none

  pub other_date : Bytes → Option T → Option ℤ → Result T
  other_date s (some t) u = returned t
  other_date s none (some u) = returned (dates.unix u)
  other_date s none none = elim (raw_date s (index_byte s b' ')) [
    | some t ↦ returned t
    | none ↦ rejected (unknown_date s)
  ]

  -- `ParsePatchDate`
  unfoldable pub parse_patch_date : Bytes → Result T
  unfolding other_date raw_date zoned_date first_date
  parse_patch_date s =
      if equal s []
      then returned dates.zero_time
      else other_date s (first_date date_formats s) (dates.parse_int s)

  abbrev pub empty_header : PatchHeader T
  empty_header = record {
    sha = [];
    author = none;
    author_date = dates.zero_time;
    committer = none;
    committer_date = dates.zero_time;
    title = [];
    body = [];
    subject_prefix = [];
    body_appendix = [];
  }

  -- The date or the identity of a field, put into the header.
  abbrev pub set_date : (T → PatchHeader T) → Result T → Result (PatchHeader T)
  set_date put (returned t) = returned (put t)
  set_date put (rejected e) = rejected e

  abbrev pub set_identity :
      (PatchIdentity → PatchHeader T) → Option PatchIdentity → Result (PatchHeader T)
  set_identity put (some u) = returned (put u)
  set_identity put none = rejected bad_identity

  module _ (unicode : Unicode) where
    abbrev pub identity_of : Bytes → Option PatchIdentity
    identity_of s = parse_patch_identity unicode.trim_space s

    abbrev pub date_of : Bytes → Result T
    date_of s = parse_patch_date (unicode.trim_space s)

    -- The cases of the switch of `parseHeaderPretty`, in their order.
    pub commit_date_field : PatchHeader T → Option Bytes → Result (PatchHeader T)
    commit_date_field h (some s) = set_date (λ d. record h { committer_date = d }) (date_of s)
    commit_date_field h none = returned h

    pub author_date_field : PatchHeader T → Bytes → Option Bytes → Result (PatchHeader T)
    author_date_field h line (some s) = set_date (λ d. record h { author_date = d }) (date_of s)
    author_date_field h line none = commit_date_field h (strip_prefix (codes "CommitDate:") line)

    pub date_field : PatchHeader T → Bytes → Option Bytes → Result (PatchHeader T)
    date_field h line (some s) = set_date (λ d. record h { author_date = d }) (date_of s)
    date_field h line none = author_date_field h line (strip_prefix (codes "AuthorDate:") line)

    pub commit_field : PatchHeader T → Bytes → Option Bytes → Result (PatchHeader T)
    commit_field h line (some s) =
        set_identity (λ u. record h { committer = some u }) (identity_of s)
    commit_field h line none = date_field h line (strip_prefix (codes "Date:") line)

    pub author_field : PatchHeader T → Bytes → Option Bytes → Result (PatchHeader T)
    author_field h line (some s) = set_identity (λ u. record h { author = some u }) (identity_of s)
    author_field h line none = commit_field h line (strip_prefix (codes "Commit:") line)

    pub header_fields_on :
        (PatchHeader T → Result (PatchHeader T × Scanned))
        → Result (PatchHeader T)
        → Result (PatchHeader T × Scanned)
    header_fields_on go (returned h) = go h
    header_fields_on go (rejected e) = rejected e

    -- The loop over the fields: the header, the lines left, and whether they have ended.
    pub header_fields : PatchHeader T → List Bytes → Result (PatchHeader T × Scanned)
    header_fields h [] = returned (h, ([], true))
    header_fields h (line ∷ ls) =
        let on =
          header_fields_on (λ h'. header_fields h' ls)
            (author_field h line (strip_prefix (codes "Author:") line)) in
        if equal (unicode.trim_space line) [] then returned (h, (ls, false)) else on

    abbrev pub indent_of : Bytes → Option ℕ → Bytes
    indent_of line none = []
    indent_of line (some start) = if ltb 0 start then take start line else []

    -- `scanMessageTitle`: the title, the indent, the lines left, and whether they have ended.
    unfoldable pub scan_message_title :
        ℕ → Bytes → Bytes → List Bytes → Bytes × Bytes × List Bytes × Bool
    scan_message_title i b indent [] = (b, indent, [], true)
    scan_message_title i b indent (line ∷ ls) =
        let text = unicode.trim_space line in
        let on =
          scan_message_title (i + 1) ((if ltb 0 (length b) then b ++ b' ' ∷ [] else b) ++ text)
            (if i == 0 then indent_of line (unicode.index_text line) else indent) ls in
        if equal text [] then (b, indent, ls, false) else on

    -- What follows the title; the body is scanned to its end.
    pub with_body :
        PatchHeader T → Option ℕ → Bytes × Bytes × List Bytes × Bool → Result (PatchHeader T)
    with_body h failure (title, indent, ls, ended) = elim (scan_error failure ended) [
      | some e ↦ rejected e
      | none ↦
          if equal title []
          then returned (record h { title = title })
          else elim (scan_error failure true) [
            | some e ↦ rejected e
            | none ↦ returned (record h {
              title = title;
              body = (scan_message_body unicode.trim_right ls indent false).0;
            })
          ]
    ]

    pub with_title : Option ℕ → Result (PatchHeader T × Scanned) → Result (PatchHeader T)
    with_title failure (rejected e) = rejected e
    with_title failure (returned (h, (ls, ended))) = elim (scan_error failure ended) [
      | some e ↦ rejected e
      | none ↦ with_body h failure (scan_message_title 0 [] [] ls)
    ]

    -- The commit's name on the first line, whole if there is no space behind it.
    pub pretty_sha : Bytes → Option ℕ → Bytes
    pretty_sha line none = line
    pretty_sha line (some i) = if ltb 0 i then take i line else line

    -- `parseHeaderPretty`
    unfoldable pub parse_header_pretty : Bytes → Scanner → Result (PatchHeader T)
    unfolding with_title with_body header_fields pretty_sha
    parse_header_pretty pretty_line (ls, failure) =
        let line = trim_prefix (codes "commit ") pretty_line in
        with_title failure
          (header_fields (record empty_header { sha = pretty_sha line (index_byte line b' ') }) ls)

    module _ (quoted_printable : Bytes → Option Bytes) where
      -- `decodeSubject`; a text that is not decoded stays.
      unfoldable pub decode_subject : Bytes → Bytes
      decode_subject encoded =
          if has_prefix (codes "=?UTF-8?q?") encoded
          then elim (quoted_printable
              (remove_all (codes "?=") 0 (remove_all (codes " =?UTF-8?q?") 0 (b' ' ∷ encoded)))) [
                | some decoded ↦ decoded
                | none ↦ encoded
              ]
          else encoded

      -- The subject, cut where the loop of `cleanSubject` has ended.
      abbrev pub cut_subject : Bytes → ℕ → Bytes × Bytes
      cut_subject s at =
          (unicode.trim_left (take at s), unicode.trim_right (decode_subject (drop at s)))

      -- `cleanSubject`
      unfoldable pub clean_subject : Bytes → SubjectCleanMode → Result (Bytes × Bytes)
      clean_subject s clean_whitespace = returned ([], unicode.trim_space (decode_subject s))
      clean_subject s clean_all = returned (cut_subject s (clean_subject_loop (length s) true 0 s))
      clean_subject s clean_patch_only =
          returned (cut_subject s (clean_subject_loop (length s) false 0 s))
      clean_subject s (other_mode n) = rejected (unknown_clean_mode n)

      module _ {M : Type 0} (mails : Mails M) where
        -- The stages of `parseHeaderMail` from its end on: the body, the subject, the date and the
        -- author, each unless one before it has failed.
        pub mail_body : PatchHeader T → Scanner → Result (PatchHeader T)
        mail_body h (ls, failure) =
            let parts = scan_message_body unicode.trim_right ls [] true in
            elim (scan_error failure true) [
              | some e ↦ rejected e
              | none ↦ returned (record h { body = parts.0; body_appendix = parts.1 })
            ]

        pub mail_subject : M → PatchHeader T → Result (Bytes × Bytes) → Result (PatchHeader T)
        mail_subject msg h (rejected e) = rejected e
        mail_subject msg h (returned (prefix, title)) =
            mail_body (record h { subject_prefix = prefix; title = title }) (mails.scan_body msg)

        pub mail_date : M → SubjectCleanMode → Result (PatchHeader T) → Result (PatchHeader T)
        mail_date msg mode (rejected e) = rejected e
        mail_date msg mode (returned h) =
            mail_subject msg h (clean_subject (mails.get msg (codes "Subject")) mode)

        pub mail_author : M → SubjectCleanMode → Result (PatchHeader T) → Result (PatchHeader T)
        mail_author msg mode (rejected e) = rejected e
        mail_author msg mode (returned h) =
            let date = mails.get msg (codes "Date") in
            mail_date msg mode (
              if equal date []
              then returned h
              else set_date (λ d. record h { author_date = d }) (parse_patch_date date))

        pub mail_header : Bytes → SubjectCleanMode → Result M → Result (PatchHeader T)
        mail_header sha mode (rejected e) = rejected e
        mail_header sha mode (returned msg) =
            let from = mails.get msg (codes "From") in
            let h = record empty_header { sha = sha } in
            mail_author msg mode (
              if equal from []
              then returned h
              else set_identity (λ u. record h { author = some u }) (identity_of from))

        -- The commit's name on the first line, if it is one of a mailbox and has a space behind it.
        pub mail_sha : Bytes → Option ℕ → Bytes
        mail_sha line none = []
        mail_sha line (some i) = if ltb 0 i then take i line else []

        pub sha_of_mail : Option Bytes → Bytes
        sha_of_mail none = []
        sha_of_mail (some line) = mail_sha line (index_byte line b' ')

        -- `parseHeaderMail`
        unfoldable pub parse_header_mail : Bytes → Bytes → SubjectCleanMode → Result (PatchHeader T)
        unfolding mail_header mail_author mail_date mail_subject mail_body sha_of_mail mail_sha
        parse_header_mail mail_line content mode =
            mail_header (sha_of_mail (strip_prefix (codes "From ") mail_line)) mode
              (mails.read_message content)

        module _ (scan_lines : Bytes → Scanner) where
          -- The switch over the first line.
          pub parse_by_first : SubjectCleanMode → Bytes → Bytes → Bytes → Result (PatchHeader T)
          parse_by_first mode header first rest =
              if has_prefix (codes "From ") first
              then parse_header_mail first rest mode
              else if has_prefix (codes "From:") first
              then parse_header_mail [] header mode
              else if has_prefix (codes "commit ") first
              then parse_header_pretty first (scan_lines rest)
              else rejected unrecognized_format

          -- `firstLine` and `rest`
          pub parse_split : SubjectCleanMode → Bytes → Option ℕ → Result (PatchHeader T)
          parse_split mode header none = parse_by_first mode header header []
          parse_split mode header (some i) =
              parse_by_first mode header (take i header) (drop (i + 1) header)

          -- `ParsePatchHeader`
          unfoldable pub parse_patch_header :
              Bytes → List PatchHeaderOption → Result (PatchHeader T)
          unfolding parse_split parse_by_first
          parse_patch_header header options =
              let mode = apply_options clean_all options in
              let text = unicode.trim_space header in
              if equal text []
              then returned empty_header
              else parse_split mode text (index_byte text b'\n')
