-- ===== src/Importer/Brief/Parse.antt =====
-- parse_brief, looks_like_brief and import_brief of src/bbagent/importer/core.py.
use bugbounty_agent.Base.{
  ℕ, String, Bool, true, false, ◌&&◌, ◌||◌, Option, none, some, is_some, List, [], ◌∷◌, ◌++◌, ◌==◌,
  contains, length, ltb, leb, if◌then◌else◌, Result, ok,
}
use bugbounty_agent.Base.Results.{◌>>=◌}
use bugbounty_agent.Base.Text
use bugbounty_agent.Base.Text.{len}
use bugbounty_agent.Scope.Canonical.{is_space, lower}
use bugbounty_agent.Scope.Models.{ScopeConfig, RateLimits}
use bugbounty_agent.Importer.Values.{
  Value, Fields, null, text, end, field, truthy, get, or_else, Importing, Error, str_of,
}
use bugbounty_agent.Importer.Draft.{ScopeDraft, empty, add, Meta, to_scope_config}
use bugbounty_agent.Importer.Brief.{
  Section, in_section, out_section, notes_section, heading, classify_section, clean_note, table_sep,
  host_entry, parse_frontmatter,
}

-- the variables of the loop of parse_brief
pub record Reading : Type 0 where
  pub draft : ScopeDraft
  pub seen_notes : List String
  pub section : Option Section

abbrev pub start : Reading
start = record { draft = empty; seen_notes = []; section = none }

-- the end of add_note: a note that is long enough
unfoldable pub keep_note : String → String → Reading → Reading
unfolding contains Text.take
keep_note note key r =
    if contains r.seen_notes key || leb 80 (length r.draft.notes) then r else record {
      draft = record (r.draft) { notes = r.draft.notes ++ Text.take 400 note ∷ [] };
      seen_notes = key ∷ r.seen_notes;
      section = r.section;
    }

module _ (I : Importing) where
  -- add_note of parse_brief
  unfoldable pub add_note : String → Reading → Reading
  unfolding clean_note table_sep keep_note
  add_note raw r =
      let note = clean_note I raw in
      if ltb (len note) 4 || table_sep I raw then r else keep_note note (lower I.libs note) r

  -- a line of a section
  unfoldable pub add_entry : Section → String → Reading → Result Error Reading
  unfolding add add_note host_entry
  add_entry in_section line r = elim (host_entry I line) [
    | some entry ↦ (do d ← add I entry true r.draft; ok (record r { draft = d }))
    | none ↦ ok r
  ]
  add_entry out_section line r = elim (host_entry I line) [
    | some entry ↦ (do d ← add I entry false r.draft; ok (record r { draft = d }))
    | none ↦ ok (add_note line r)
  ]
  add_entry notes_section line r = ok (add_note line r)

  abbrev pub in_section_of : Option Section → String → Reading → Result Error Reading
  in_section_of none line r = ok r
  in_section_of (some section) line r = add_entry section line r

  -- the body of the loop of parse_brief
  unfoldable pub read_line : String → Reading → Result Error Reading
  unfolding heading classify_section add_entry Text.strip is_space
  read_line line r = elim (heading I line) [
    | some (level, title) ↦ ok (record r { section = classify_section I title })
    | none ↦
        if Text.strip (is_space I.libs) line == "" then ok r else in_section_of r.section line r
  ]

  unfoldable pub read_lines : List String → Reading → Result Error Reading
  unfolding read_line
  read_lines [] r = ok r
  read_lines (line ∷ lines) r = do r' ← read_line line r; read_lines lines r'

  unfoldable pub parse_brief : String → Result Error ScopeDraft
  unfolding read_lines Text.splitlines
  parse_brief t = do r ← read_lines (Text.splitlines t) start; ok r.draft

  unfoldable pub any_section : List String → Bool
  unfolding heading classify_section
  any_section [] = false
  any_section (line ∷ lines) = elim (heading I line) [
    | some (level, title) ↦ (leb 2 level && is_some (classify_section I title)) || any_section lines
    | none ↦ any_section lines
  ]

  abbrev is_brief : Fields × String → Bool
  is_brief (field k v fs, body) = true
  is_brief (end, body) = any_section (Text.splitlines body)

  unfoldable pub looks_like_brief : String → Bool
  unfolding parse_frontmatter any_section Text.splitlines
  looks_like_brief t = is_brief (parse_frontmatter I t)

  -- float(rps) if rps is not None else 1.0, in thousandths
  abbrev rps_of : Value → Option ℕ
  rps_of null = some 1000
  rps_of v = I.float_of v

  abbrev conc_of : Value → Option ℕ
  conc_of null = some 1
  conc_of v = I.int_of v

  abbrev limits : Option ℕ → Option ℕ → Option RateLimits
  limits (some rps) (some conc) =
      some (record { requests_per_second = rps; max_concurrency = conc })
  limits _ _ = none

  abbrev limits_of : Value → Value → Option RateLimits
  limits_of null null = none
  limits_of rps conc = limits (rps_of rps) (conc_of conc)

  -- _rate_from_meta
  unfoldable pub rate_from_meta : Fields → Option RateLimits
  unfolding get or_else truthy
  rate_from_meta meta =
      limits_of (or_else (get "requests_per_second" null meta) (get "rps" null meta))
        (or_else (get "max_concurrency" null meta) (get "concurrency" null meta))

  abbrev given_name : Option String → Value
  given_name none = null
  given_name (some name) = text name

  unfoldable pub meta_of_brief : Fields → Option String → Meta
  unfolding get or_else truthy rate_from_meta
  meta_of_brief meta program_name = record {
    program_name = str_of I (
        or_else (given_name program_name) (
          or_else (get "program" null meta)
            (or_else (get "name" null meta) (text "Imported Program"))));
    platform = lower I.libs (str_of I (get "platform" (text "other") meta));
    policy_url = or_else (get "policy_url" null meta) (get "policy" null meta);
    authorized_until = get "authorized_until" null meta;
    last_verified_at = get "last_verified_at" null meta;
    rate_limits = rate_from_meta meta;
  }

  unfoldable pub import_brief : String → Option String → Result Error ScopeConfig
  unfolding parse_frontmatter parse_brief meta_of_brief to_scope_config
  import_brief t program_name =
      let (meta, body) = parse_frontmatter I t in
      (do draft ← parse_brief body; to_scope_config I draft (meta_of_brief meta program_name))
