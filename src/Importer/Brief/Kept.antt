-- ===== src/Importer/Brief/Kept.antt =====
-- parse_brief of src/bbagent/importer/core.py keeps what ScopeDraft.add keeps, and bounds the notes.
use bugbounty_agent.Base.{
  inl, inr, String, Bool, true, false, ◌||◌, Option, none, some, List, [], ◌∷◌, ◌==◌, length, leb,
  ltb, contains, Bool-cases, Option-cases, ok,
}
use bugbounty_agent.Base.Results.{◌>>=◌, Ensures, >>=-Ensures, if-Ensures}
use bugbounty_agent.Base.Text
use bugbounty_agent.Base.Text.{len}
use bugbounty_agent.Scope.Canonical.{is_space}
use bugbounty_agent.Importer.Values.{Importing}
use bugbounty_agent.Importer.Draft.{ScopeDraft, add}
use bugbounty_agent.Importer.Draft.Entries.{IsKept, add-kept}
use bugbounty_agent.Importer.Brief.{
  Section, in_section, out_section, notes_section, heading, clean_note, table_sep, host_entry,
  classify_section,
}
use bugbounty_agent.Importer.Brief.Parse.{
  Reading, start, keep_note, add_note, add_entry, in_section_of, read_line, read_lines, parse_brief,
}

-- The loop of parse_brief keeps a predicate on its variables.
pub record IsRead (I : Importing) (Q : Reading → Type 0) : Type 0 where
  pub start_read : Q start
  pub note_read : (note key : String) (r : Reading) → Q r → Q (keep_note note key r)
  pub section_read :
      (section : Option Section) (r : Reading) → Q r → Q (record r { section = section })
  pub add_read :
      (entry : String) (b : Bool) (r : Reading)
      → Q r
      → Ensures (λ d. Q (record r { draft = d })) (add I entry b r.draft)

module _ (I : Importing) (Q : Reading → Type 0) (read : IsRead I Q) where
  add_note-read : (line : String) (r : Reading) → Q r → Q (add_note I line r)
  unfolding add_note
  add_note-read line r q = elim (Bool-cases (ltb (len (clean_note I line)) 4 || table_sep I line)) [
    | inl e ↦ rw (e, add_note) q
    | inr e ↦ rw (e, add_note) (read.note_read _ _ r q)
  ]

  added-read :
      (entry : String) (b : Bool) (r : Reading)
      → Q r
      → Ensures Q (add I entry b r.draft >>= λ d. ok (record r { draft = d }))
  added-read entry b r q =
      >>=-Ensures (λ d. Q (record r { draft = d })) Q (add I entry b r.draft) _
        (read.add_read entry b r q) λ d h. h

  add_entry-read :
      (s : Section) (line : String) (r : Reading) → Q r → Ensures Q (add_entry I s line r)
  unfolding add_entry
  add_entry-read in_section line r q = elim (Option-cases (host_entry I line)) [
    | inl e ↦ rw (e, add_entry) q
    | inr (entry, e) ↦ rw (e, add_entry) (added-read entry true r q)
  ]
  add_entry-read out_section line r q = elim (Option-cases (host_entry I line)) [
    | inl e ↦ rw (e, add_entry) (add_note-read line r q)
    | inr (entry, e) ↦ rw (e, add_entry) (added-read entry false r q)
  ]
  add_entry-read notes_section line r q = add_note-read line r q

  in_section_of-read :
      (s : Option Section) (line : String) (r : Reading)
      → Q r
      → Ensures Q (in_section_of I s line r)
  in_section_of-read none line r q = q
  in_section_of-read (some s) line r q = add_entry-read s line r q

  read_line-read : (line : String) (r : Reading) → Q r → Ensures Q (read_line I line r)
  unfolding read_line
  read_line-read line r q = elim (Option-cases (heading I line)) [
    | inl e ↦
        rw (e, read_line)
          (if-Ensures Q (Text.strip (is_space I.libs) line == "") _ _ q
            (in_section_of-read r.section line r q))
    | inr ((level, title), e) ↦ rw (e, read_line) (read.section_read (classify_section I title) r q)
  ]

  pub read_lines-read : (lines : List String) (r : Reading) → Q r → Ensures Q (read_lines I lines r)
  unfolding read_lines
  read_lines-read [] r q = q
  read_lines-read (line ∷ lines) r q =
      >>=-Ensures Q Q (read_line I line r) _ (read_line-read line r q)
        λ r1 q1. read_lines-read lines r1 q1

-- What the drafts keep, the loop keeps.
module _ (I : Importing) (P : ScopeDraft → Type 0) (kept : IsKept I P) where
  keep_note-kept : (note key : String) (r : Reading) → P r.draft → P ((keep_note note key r).draft)
  unfolding keep_note
  keep_note-kept note key r p =
      elim (Bool-cases (contains r.seen_notes key || leb 80 (length r.draft.notes))) [
        | inl e ↦ rw (e, keep_note) p
        | inr e ↦ rw (e, keep_note) (kept.notes_kept _ r.draft p)
      ]

  draft-IsRead : IsRead I (λ r. P r.draft)
  draft-IsRead = record {
    start_read = kept.empty_kept;
    note_read = keep_note-kept;
    section_read = λ s r p. p;
    add_read = λ entry b r p. add-kept I P kept.added entry b r.draft p;
  }

  pub parse_brief-kept : (t : String) → Ensures P (parse_brief I t)
  unfolding parse_brief
  parse_brief-kept t =
      >>=-Ensures (λ (r : Reading). P r.draft) P (read_lines I (Text.splitlines t) start) _
        (read_lines-read I (λ r. P r.draft) draft-IsRead (Text.splitlines t) start kept.empty_kept)
        λ r p. p
