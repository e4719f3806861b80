-- ===== src/Importer/Kept.antt =====
-- The parsers of src/bbagent/importer/core.py keep what ScopeDraft.add keeps.
use bugbounty_agent.Base.{
  inl, inr, String, Bool, true, false, Option, none, some, List, [], ◌∷◌, Bool-cases, not, ◌&&◌,
  ◌||◌, ◌==◌, if◌then◌else◌,
}
use bugbounty_agent.Base.Results.{Ensures, >>=-Ensures, any-Ensures, if-Ensures, guard}
use bugbounty_agent.Base.Text
use bugbounty_agent.Scope.Canonical.{is_space}
use bugbounty_agent.Importer.Values.{
  Value, Items, Fields, null, bool, number, date, text, array, object, nil, item, truthy, get,
  Importing, no_targets, no_page_scope,
}
use bugbounty_agent.Importer.Draft.{ScopeDraft, empty, add, is_empty}
use bugbounty_agent.Importer.Draft.Entries.{IsAdded, IsKept, add-kept}
use bugbounty_agent.Importer.Platforms.{
  attributes, as_text, as_dict, iterate, identifier_of, is_eligible, with_instruction, add_scope,
  add_scopes, parse_scopes, parse_hackerone, target_name, add_targets, add_groups, groups_of,
  parse_groups, parse_bugcrowd, targets_from_json, add_pairs, add_objects, parse_embedded, add_line,
  add_lines, parse_plaintext, add_all, parse_html_best_effort,
}

module _ (I : Importing) (P : ScopeDraft → Type 0) (added : IsAdded I P) where
  pub add_line-kept : (line : String) (d : ScopeDraft) → P d → Ensures P (add_line I line d)
  unfolding add_line
  add_line-kept given d p =
      let line = Text.strip (is_space I.libs) given in
      if-Ensures P (line == "" || Text.starts_with line "#") _ _ p (
        if-Ensures P (Text.starts_with line "!") _ _
          (add-kept I P added (Text.strip (is_space I.libs) (Text.drop 1 line)) false d p)
          (add-kept I P added line true d p))

module _ (I : Importing) (P : ScopeDraft → Type 0) (kept : IsKept I P) where
  with_instruction-kept : (attrs : Fields) (d : ScopeDraft) → P d → P (with_instruction I attrs d)
  unfolding with_instruction
  with_instruction-kept attrs d p =
      elim (Bool-cases (truthy (get "instruction" null attrs) && not (is_eligible I attrs))) [
        | inl e ↦ rw (e, with_instruction) (kept.notes_kept _ d p)
        | inr e ↦ rw (e, with_instruction) p
      ]

  add_scope-kept : (v : Value) (d : ScopeDraft) → P d → Ensures P (add_scope I v d)
  unfolding add_scope
  add_scope-kept v d p = any-Ensures P (attributes v) _ λ attrs.
      any-Ensures P (as_text (identifier_of I attrs)) _ λ ident.
        >>=-Ensures P P (add I ident (is_eligible I attrs) d) _
          (add-kept I P kept.added ident _ d p) λ d1 p1. with_instruction-kept attrs d1 p1

  add_scopes-kept : (vs : Items) (d : ScopeDraft) → P d → Ensures P (add_scopes I vs d)
  unfolding add_scopes
  add_scopes-kept nil d p = p
  add_scopes-kept (item v vs) d p =
      >>=-Ensures P P (add_scope I v d) _ (add_scope-kept v d p) λ d1 p1. add_scopes-kept vs d1 p1

  parse_scopes-kept : (v : Value) → Ensures P (parse_scopes I v)
  unfolding parse_scopes
  parse_scopes-kept (array vs) = add_scopes-kept vs empty kept.empty_kept
  parse_scopes-kept null = tt
  parse_scopes-kept (bool b) = tt
  parse_scopes-kept (number z t) = tt
  parse_scopes-kept (date d) = tt
  parse_scopes-kept (text s) = tt
  parse_scopes-kept (object fs) = tt

  pub parse_hackerone-kept : (v : Value) → Ensures P (parse_hackerone I v)
  unfolding parse_hackerone
  parse_hackerone-kept (object fs) = parse_scopes-kept (get "data" null fs)
  parse_hackerone-kept null = tt
  parse_hackerone-kept (bool b) = tt
  parse_hackerone-kept (number z t) = tt
  parse_hackerone-kept (date d) = tt
  parse_hackerone-kept (text s) = tt
  parse_hackerone-kept (array vs) = parse_scopes-kept (array vs)

  add_targets-kept :
      (b : Bool) (vs : Items) (d : ScopeDraft) → P d → Ensures P (add_targets I b vs d)
  unfolding add_targets
  add_targets-kept b nil d p = p
  add_targets-kept b (item v vs) d p = any-Ensures P (as_dict v) _ λ fs.
      any-Ensures P (as_text (target_name I fs)) _ λ name.
        >>=-Ensures P P (add I name b d) _ (add-kept I P kept.added name b d p)
          λ d1 p1. add_targets-kept b vs d1 p1

  add_groups-kept : (vs : Items) (d : ScopeDraft) → P d → Ensures P (add_groups I vs d)
  unfolding add_groups
  add_groups-kept nil d p = p
  add_groups-kept (item v vs) d p = any-Ensures P (as_dict v) _ λ fs.
      any-Ensures P (iterate (get "targets" (array nil) fs)) _ λ targets.
        >>=-Ensures P P (add_targets I (truthy (get "in_scope" (bool true) fs)) targets d) _
          (add_targets-kept (truthy (get "in_scope" (bool true) fs)) targets d p)
          λ d1 p1. add_groups-kept vs d1 p1

  parse_groups-kept : (v : Value) → Ensures P (parse_groups I v)
  unfolding parse_groups
  parse_groups-kept (array nil) = tt
  parse_groups-kept (array (item v vs)) = add_groups-kept (item v vs) empty kept.empty_kept
  parse_groups-kept null = tt
  parse_groups-kept (bool b) = tt
  parse_groups-kept (number z t) = tt
  parse_groups-kept (date d) = tt
  parse_groups-kept (text s) = tt
  parse_groups-kept (object fs) = tt

  pub parse_bugcrowd-kept : (v : Value) → Ensures P (parse_bugcrowd I v)
  unfolding parse_bugcrowd
  parse_bugcrowd-kept v = any-Ensures P (as_dict v) _ λ fs. parse_groups-kept (groups_of I fs)

  add_pairs-kept :
      (pairs : List (String × Bool)) (d : ScopeDraft) → P d → Ensures P (add_pairs I pairs d)
  unfolding add_pairs
  add_pairs-kept [] d p = p
  add_pairs-kept ((ident, ins) ∷ pairs) d p =
      >>=-Ensures P P (add I ident ins d) _ (add-kept I P kept.added ident ins d p)
        λ d1 p1. add_pairs-kept pairs d1 p1

  add_objects-kept : (vs : List Value) (d : ScopeDraft) → P d → Ensures P (add_objects I vs d)
  unfolding add_objects
  add_objects-kept [] d p = p
  add_objects-kept (v ∷ vs) d p =
      >>=-Ensures P P (add_pairs I (targets_from_json I v) d) _
        (add_pairs-kept (targets_from_json I v) d p) λ d1 p1. add_objects-kept vs d1 p1

  -- a draft, if there is one
  abbrev pub Found : Option ScopeDraft → Type 0
  Found none = Unit
  Found (some d) = P d

  Found-embedded : (b : Bool) (d : ScopeDraft) → P d → Found (if b then none else some d)
  Found-embedded true d p = tt
  Found-embedded false d p = p

  pub parse_embedded-kept : (page : String) → Ensures Found (parse_embedded I page)
  unfolding parse_embedded
  parse_embedded-kept page =
      >>=-Ensures P Found (add_objects I (I.embedded_json page) empty) _
        (add_objects-kept (I.embedded_json page) empty kept.empty_kept)
        λ d p. Found-embedded (is_empty d) _ (kept.added.warn_added _ d p)

  add_lines-kept : (lines : List String) (d : ScopeDraft) → P d → Ensures P (add_lines I lines d)
  unfolding add_lines
  add_lines-kept [] d p = p
  add_lines-kept (line ∷ lines) d p =
      >>=-Ensures P P (add_line I line d) _ (add_line-kept I P kept.added line d p)
        λ d1 p1. add_lines-kept lines d1 p1

  pub parse_plaintext-kept : (t : String) → Ensures P (parse_plaintext I t)
  unfolding parse_plaintext
  parse_plaintext-kept t =
      >>=-Ensures P P (add_lines I (Text.splitlines t) empty) _
        (add_lines-kept (Text.splitlines t) empty kept.empty_kept)
        λ d p. any-Ensures P (guard (not (is_empty d)) no_targets) _ λ u. p

  add_all-kept : (hosts : List String) (d : ScopeDraft) → P d → Ensures P (add_all I hosts d)
  unfolding add_all
  add_all-kept [] d p = p
  add_all-kept (host ∷ hosts) d p =
      >>=-Ensures P P (add I host true d) _ (add-kept I P kept.added host true d p)
        λ d1 p1. add_all-kept hosts d1 p1

  pub parse_html_best_effort-kept : (page : String) → Ensures P (parse_html_best_effort I page)
  unfolding parse_html_best_effort
  parse_html_best_effort-kept page =
      >>=-Ensures P P (add_all I (I.page_hosts page) empty) _
        (add_all-kept (I.page_hosts page) empty kept.empty_kept)
        λ d p.
          any-Ensures P (guard (not (is_empty d)) no_page_scope) _ λ u. kept.added.warn_added _ d p
