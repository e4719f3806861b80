-- ===== src/Importer/Platforms.antt =====
-- The parsers of src/bbagent/importer/core.py for platform JSON, embedded JSON and plain text.
use bugbounty_agent.Base.{
  String, Bool, true, false, not, ◌&&◌, ◌||◌, Option, none, some, List, [], ◌∷◌, ◌++◌, ◌==◌,
  if◌then◌else◌, Result, ok, err,
}
use Prim.Native.String.{◌∷◌ as ◌∷ˢ◌}
use bugbounty_agent.Base.Results.{◌>>=◌, ◌>>◌, guard}
use bugbounty_agent.Base.Text
use bugbounty_agent.Base.Text.{◌<>◌, is}
use bugbounty_agent.Scope.Canonical.{is_space, lower}
use bugbounty_agent.Importer.Values.{
  Value, Items, Fields, null, bool, number, date, text, array, object, nil, item, end, field,
  truthy, get, has_key, or_else, Importing, Error, str_of, unrecognized_hackerone,
  unrecognized_bugcrowd, attribute_error, type_error, no_targets, no_page_scope,
}
use bugbounty_agent.Importer.Draft.{ScopeDraft, empty, add, is_empty, warn}

-- the methods of a dict; any other value raises AttributeError
unfoldable pub as_dict : Value → Result Error Fields
as_dict (object fs) = ok fs
as_dict _ = err attribute_error

-- (v or "") where a text is expected: other values that are true raise AttributeError at strip
unfoldable pub as_text : Value → Result Error String
unfolding truthy
as_text (text s) = ok s
as_text v = if truthy v then err attribute_error else ok ""

unfoldable pub keys : Fields → Items
keys end = nil
keys (field k v fs) = item (text k) (keys fs)

unfoldable pub chars : String → Items
chars String.[] = nil
chars (c ∷ˢ s) = item (text (c ∷ˢ String.[])) (chars s)

-- iter(v)
unfoldable pub iterate : Value → Result Error Items
unfolding keys chars
iterate (array vs) = ok vs
iterate (object fs) = ok (keys fs)
iterate (text s) = ok (chars s)
iterate _ = err type_error

-- item.get("attributes", item) if isinstance(item, dict) else {}
unfoldable pub attributes : Value → Result Error Fields
unfolding as_dict get
attributes (object fs) = as_dict (get "attributes" (object fs) fs)
attributes _ = ok end

-- an asset that parse_hackerone or parse_bugcrowd adds
module _ (I : Importing) where
  -- the body of the loop of parse_hackerone
  abbrev pub identifier_of : Fields → Value
  identifier_of attrs = or_else (get "asset_identifier" null attrs) (get "identifier" null attrs)

  unfoldable pub is_eligible : Fields → Bool
  unfolding truthy get
  is_eligible attrs = truthy (get "eligible_for_submission" (bool true) attrs)

  unfoldable pub with_instruction : Fields → ScopeDraft → ScopeDraft
  unfolding is_eligible get truthy Text.take
  with_instruction attrs d =
      let instruction = get "instruction" null attrs in
      if truthy instruction && not (is_eligible attrs)
      then record d { notes = d.notes ++ Text.take 200 (str_of I instruction) ∷ [] }
      else d

  unfoldable pub add_scope : Value → ScopeDraft → Result Error ScopeDraft
  unfolding attributes get or_else as_text is_eligible with_instruction add
  add_scope entry d = do
    attrs ← attributes entry
    identifier ← as_text (identifier_of attrs)
    d' ← add I identifier (is_eligible attrs) d
    ok (with_instruction attrs d')

  unfoldable pub add_scopes : Items → ScopeDraft → Result Error ScopeDraft
  unfolding add_scope
  add_scopes nil d = ok d
  add_scopes (item entry rest) d = do d' ← add_scope entry d; add_scopes rest d'

  unfoldable pub parse_scopes : Value → Result Error ScopeDraft
  unfolding add_scopes
  parse_scopes (array scopes) = add_scopes scopes empty
  parse_scopes _ = err unrecognized_hackerone

  unfoldable pub parse_hackerone : Value → Result Error ScopeDraft
  unfolding parse_scopes get
  parse_hackerone (object fs) = parse_scopes (get "data" null fs)
  parse_hackerone v = parse_scopes v

  -- the loops of parse_bugcrowd
  abbrev pub target_name : Fields → Value
  target_name fs = or_else (get "name" null fs) (get "uri" null fs)

  unfoldable pub add_targets : Bool → Items → ScopeDraft → Result Error ScopeDraft
  unfolding as_dict get or_else as_text add
  add_targets in_scope nil d = ok d
  add_targets in_scope (item target rest) d = do
    fs ← as_dict target
    name ← as_text (target_name fs)
    d' ← add I name in_scope d
    add_targets in_scope rest d'

  unfoldable pub add_groups : Items → ScopeDraft → Result Error ScopeDraft
  unfolding as_dict get truthy iterate add_targets
  add_groups nil d = ok d
  add_groups (item group rest) d = do
    fs ← as_dict group
    targets ← iterate (get "targets" (array nil) fs)
    d' ← add_targets (truthy (get "in_scope" (bool true) fs)) targets d
    add_groups rest d'

  -- the groups, or the targets as one group
  unfoldable pub groups_of : Fields → Value
  unfolding get or_else truthy has_key
  groups_of fs =
      let groups =
        or_else (or_else (get "groups" null fs) (get "target_groups" null fs)) (array nil) in
      if not (truthy groups) && has_key "targets" fs
      then array (
          item (object (field "in_scope" (bool true) (field "targets" (get "targets" null fs) end)))
            nil)
      else groups

  unfoldable pub parse_groups : Value → Result Error ScopeDraft
  unfolding add_groups
  parse_groups (array (item group rest)) = add_groups (item group rest) empty
  parse_groups _ = err unrecognized_bugcrowd

  unfoldable pub parse_bugcrowd : Value → Result Error ScopeDraft
  unfolding parse_groups groups_of as_dict
  parse_bugcrowd data' = do fs ← as_dict data'; parse_groups (groups_of fs)

  -- a key of an enclosing dict says whether what is below it is in scope
  unfoldable pub scope_of_key : String → Bool → Bool
  unfolding Text.has
  scope_of_key key inscope =
      let kl = lower I.libs key in
      if Text.has kl "out_of_scope" || Text.has kl "outofscope" || Text.has kl "ineligible"
      then false
      else if Text.has kl "in_scope" || Text.has kl "eligible"
      then true
      else inscope

  -- the target that a dict itself is, if it is one
  unfoldable pub target_of : Fields → Bool → List (String × Bool)
  unfolding get or_else has_key truthy
  target_of fs inscope =
      let name =
        or_else (or_else (get "asset_identifier" null fs) (get "name" null fs))
          (get "uri" null fs) in
      let elig =
        get "eligible_for_submission" (get "in_scope" (get "inScope" (bool inscope) fs) fs) fs in
      let has_signal =
        has_key "category" fs
        || has_key "asset_type" fs
        || has_key "eligible_for_submission" fs
        || has_key "in_scope" fs
        || has_key "inScope" fs in
      elim name [
        | text s ↦ if has_signal then (s, truthy elig) ∷ [] else []
        | null ↦ []
        | bool b ↦ []
        | number z t ↦ []
        | date d ↦ []
        | array vs ↦ []
        | object gs ↦ []
      ]

  -- walk of _targets_from_json
  unfoldable mutual
    unfolding target_of scope_of_key

    pub walk : Value → Bool → List (String × Bool)
    walk (object fs) inscope = target_of fs inscope ++ walk_fields fs inscope
    walk (array vs) inscope = walk_items vs inscope
    walk null inscope = []
    walk (bool b) inscope = []
    walk (number z t) inscope = []
    walk (date d) inscope = []
    walk (text s) inscope = []

    pub walk_items : Items → Bool → List (String × Bool)
    walk_items nil inscope = []
    walk_items (item v vs) inscope = walk v inscope ++ walk_items vs inscope

    pub walk_fields : Fields → Bool → List (String × Bool)
    walk_fields end inscope = []
    walk_fields (field k v fs) inscope = walk v (scope_of_key k inscope) ++ walk_fields fs inscope

  unfoldable pub targets_from_json : Value → List (String × Bool)
  targets_from_json obj = walk obj true

  unfoldable pub add_pairs : List (String × Bool) → ScopeDraft → Result Error ScopeDraft
  unfolding add
  add_pairs [] d = ok d
  add_pairs ((ident, ins) ∷ pairs) d = do d' ← add I ident ins d; add_pairs pairs d'

  unfoldable pub add_objects : List Value → ScopeDraft → Result Error ScopeDraft
  unfolding add_pairs targets_from_json
  add_objects [] d = ok d
  add_objects (obj ∷ objs) d = do d' ← add_pairs (targets_from_json obj) d; add_objects objs d'

  -- _parse_embedded; none is None
  unfoldable pub parse_embedded : String → Result Error (Option ScopeDraft)
  unfolding add_objects is_empty
  parse_embedded page = do
    d ← add_objects (I.embedded_json page) empty
    ok (
        if is_empty d
        then none
        else some (warn "Scope parsed from embedded page data — verify against the policy page." d))

  -- the body of the loop of _parse_plaintext
  unfoldable pub add_line : String → ScopeDraft → Result Error ScopeDraft
  unfolding Text.strip Text.starts_with Text.drop is_space add
  add_line given d =
      let line = Text.strip (is_space I.libs) given in
      if line == "" || Text.starts_with line "#"
      then ok d
      else if Text.starts_with line "!"
      then add I (Text.strip (is_space I.libs) (Text.drop 1 line)) false d
      else add I line true d

  unfoldable pub add_lines : List String → ScopeDraft → Result Error ScopeDraft
  unfolding add_line
  add_lines [] d = ok d
  add_lines (line ∷ lines) d = do d' ← add_line line d; add_lines lines d'

  unfoldable pub parse_plaintext : String → Result Error ScopeDraft
  unfolding add_lines is_empty Text.splitlines
  parse_plaintext t = do
    d ← add_lines (Text.splitlines t) empty
    guard (not (is_empty d)) no_targets
    ok d

  unfoldable pub add_all : List String → ScopeDraft → Result Error ScopeDraft
  unfolding add
  add_all [] d = ok d
  add_all (host ∷ hosts) d = do d' ← add I host true d; add_all hosts d'

  -- _parse_html_best_effort
  unfoldable pub parse_html_best_effort : String → Result Error ScopeDraft
  unfolding add_all is_empty
  parse_html_best_effort page = do
    d ← add_all (I.page_hosts page) empty
    guard (not (is_empty d)) no_page_scope
    ok (
        warn
          ("LOW CONFIDENCE: no structured scope was available, so this was scraped from page text and "
            <> "is likely INCOMPLETE. Verify every entry and add wildcards from the policy page.")
          d)
