-- ===== src/Importer/Brief.antt =====
-- The Markdown brief of src/bbagent/importer/core.py: its front-matter, headings, notes and hosts. A
-- regular expression is read by hand: each part of it is followed by a character it does not match.
pub mod Parse
pub mod Kept
pub mod Notes
pub mod Fence
use bugbounty_agent.Base.{
  ℕ, suc, ◌-◌, Char, code, String, Bool, true, false, not, ◌&&◌, ◌||◌, Option, none, some, is_some,
  List, [], ◌∷◌, ◌==◌, leb, any, if◌then◌else◌,
}
use Prim.Native.String.{◌∷◌ as ◌∷ˢ◌}
use bugbounty_agent.Base.Text
use bugbounty_agent.Base.Text.{◌<>◌, len, is, all_chars, any_char}
use bugbounty_agent.Scope.Libs.{Libs}
use bugbounty_agent.Scope.Canonical.{is_space, lower}
use bugbounty_agent.Importer.Values.{Value, Fields, object, end, truthy, Importing}
use bugbounty_agent.Importer.Draft.{looks_like_ip, looks_like_cidr}

-- what _classify_section returns besides None
pub data Section : Type 0 where
  in_section out_section notes_section : Section

abbrev pub out_words : List String
out_words =
    "out of scope" ∷ "out-of-scope" ∷ "outofscope" ∷ "not in scope" ∷ "excluded targets" ∷ []

abbrev pub in_words : List String
in_words = "in scope" ∷ "in-scope" ∷ "targets" ∷ "assets" ∷ "domains" ∷ "scope" ∷ []

abbrev pub notes_words : List String
notes_words =
    "rule" ∷ "note" ∷ "guideline" ∷ "expectation" ∷ "prohibit" ∷ "exclusion" ∷ "focus" ∷ "reward"
    ∷ "disclosure" ∷ "reporting" ∷ "known issue" ∷ "things to know" ∷ "safe harbor" ∷ "instruction"
    ∷ "policy" ∷ "restriction" ∷ []

unfoldable pub any_in : List String → String → Bool
unfolding Text.has any
any_in words h = any (λ k. Text.has h k) words

-- the first character, tested
abbrev pub starts : (Char → Bool) → String → Bool
starts p String.[] = false
starts p (c ∷ˢ s) = p c

-- c?
abbrev pub drop_one : ℕ → String → String
drop_one n String.[] = String.[]
drop_one n (c ∷ˢ s) = if is n c then s else c ∷ˢ s

abbrev last_char : String → String
last_char String.[] = String.[]
last_char (c ∷ˢ String.[]) = c ∷ˢ String.[]
last_char (c ∷ˢ d ∷ˢ s) = last_char (d ∷ˢ s)

-- #*
unfoldable pub level_of : String → ℕ
level_of String.[] = 0
level_of (c ∷ˢ s) = let n = level_of s in if is b'#' c then suc n else 0

abbrev is_bullet : Char → Bool
is_bullet c = is b'-' c || is b'*' c || is b'+' c || is 8226 c || is 183 c

-- [a-z], where case is ignored
abbrev is_letter : Char → Bool
is_letter c =
    (leb b'a' (code c) && leb (code c) b'z')
    || (leb b'A' (code c) && leb (code c) b'Z')
    || is 304 c
    || is 305 c
    || is 383 c
    || is 8490 c

abbrev is_alnum : Char → Bool
is_alnum c = is_letter c || (leb b'0' (code c) && leb (code c) b'9')

-- [a-z0-9-]*[a-z0-9]
abbrev ends_alnum : String → Bool
ends_alnum String.[] = false
ends_alnum (c ∷ˢ String.[]) = is_alnum c
ends_alnum (c ∷ˢ d ∷ˢ s) = (is_alnum c || is b'-' c) && ends_alnum (d ∷ˢ s)

-- [a-z0-9](?:[a-z0-9-]{0,61}[a-z0-9])?
abbrev host_label : String → Bool
host_label s = starts is_alnum s && ends_alnum s && leb (len s) 63

-- (?:label\.)+[a-z]{2,}
abbrev host_labels : List String → Bool
host_labels [] = false
host_labels (s ∷ []) = false
host_labels (s ∷ t ∷ []) = host_label s && all_chars is_letter t && leb 2 (len t)
host_labels (s ∷ t ∷ u ∷ l) = host_label s && host_labels (t ∷ u ∷ l)

module _ (I : Importing) where
  -- \d
  abbrev is_digit : Char → Bool
  is_digit c = if leb 128 (code c) then I.is_decimal c else leb b'0' (code c) && leb (code c) b'9'

  abbrev pub lstrip_space : String → String
  lstrip_space s = Text.lstrip (is_space I.libs) s

  -- _FRONTMATTER_RE from its second group on: the group, and the text that follows the match
  unfoldable pub until_fence : String → Option (String × String)
  unfolding Text.starts_with Text.drop Text.lstrip is_space
  until_fence String.[] = none
  until_fence (c ∷ˢ s) =
      let found = until_fence s in
      if Text.starts_with (c ∷ˢ s) "\n---"
      then some (String.[], lstrip_space (Text.drop 4 (c ∷ˢ s)))
      else elim found [ some (group, rest) ↦ some (c ∷ˢ group, rest) | none ↦ none ]

  -- \s*\n before it, the last newline first
  unfoldable pub opened : String → Option (String × String)
  unfolding until_fence is_space
  opened String.[] = none
  opened (c ∷ˢ s) =
      let later = opened s in
      if is_space I.libs c
      then elim later [ some found ↦ some found | none ↦ if is 10 c then until_fence s else none ]
      else none

  unfoldable pub frontmatter_re : String → Option (String × String)
  unfolding opened Text.starts_with Text.drop
  frontmatter_re given =
      let s = drop_one 65279 given in
      if Text.starts_with s "---" then opened (Text.drop 3 s) else none

  abbrev pub meta_of : Option Value → Fields
  meta_of (some (object fs)) = fs
  meta_of _ = end

  -- _parse_frontmatter
  unfoldable pub parse_frontmatter : String → Fields × String
  unfolding frontmatter_re
  parse_frontmatter given = elim (frontmatter_re given) [
    | some (group, body) ↦ (meta_of (I.yaml_load group), body)
    | none ↦ (end, given)
  ]

  -- _HEADING_RE: the level and the text of a heading
  abbrev heading_text : String → String
  heading_text content =
      let core =
        Text.rstrip (is_space I.libs)
          (Text.rstrip (is b'#') (Text.rstrip (is_space I.libs) content)) in
      if core == "" then Text.take 1 content else core

  unfoldable pub heading : String → Option (ℕ × String)
  unfolding level_of Text.lstrip Text.rstrip Text.drop Text.take is_space
  heading line =
      let hashes = lstrip_space line in
      let n = level_of hashes in
      let rest = Text.drop n hashes in
      let content = lstrip_space rest in
      if leb (len line - len hashes) 3 && leb 1 n && leb n 6 && starts (is_space I.libs) rest
      then (if content == ""
          then (if leb 2 (len rest) then some (n, last_char rest) else none)
          else some (n, heading_text content))
      else none

  -- _classify_section
  unfoldable pub classify_section : String → Option Section
  unfolding any_in
  classify_section given =
      let h = lower I.libs given in
      if any_in out_words h
      then some out_section
      else if any_in in_words h
      then some in_section
      else if any_in notes_words h
      then some notes_section
      else none

  -- what follows a marker, if a space does
  abbrev after_marker : String → String → String
  after_marker s rest = if starts (is_space I.libs) rest then lstrip_space rest else s

  -- _NOTE_BULLET_RE.sub("", s), for a text that starts with no space
  unfoldable pub drop_bullet : String → String
  unfolding Text.lstrip is_space
  drop_bullet String.[] = String.[]
  drop_bullet (c ∷ˢ s) =
      let rest = Text.lstrip is_digit s in
      if is_bullet c
      then after_marker (c ∷ˢ s) s
      else if is_digit c && starts (λ d. is b'.' d || is b')' d) rest
      then after_marker (c ∷ˢ s) (Text.drop 1 rest)
      else c ∷ˢ s

  -- [c.strip() for c in cells if c.strip()]
  unfoldable pub cells : List String → List String
  unfolding Text.strip is_space
  cells [] = []
  cells (c ∷ cs) =
      let rest = cells cs in
      let cell = Text.strip (is_space I.libs) c in if cell == "" then rest else cell ∷ rest

  -- _clean_note
  unfoldable pub clean_note : String → String
  unfolding drop_bullet cells Text.split Text.join Text.strip is_space
  clean_note given =
      let line = drop_bullet (Text.strip (is_space I.libs) given) in
      Text.strip (is_space I.libs) (
        if any_char (is b'|') line then Text.join " " (cells (Text.split (is b'|') line)) else line)

  -- _TABLE_SEP_RE.match(raw)
  unfoldable pub table_sep : String → Bool
  unfolding Text.lstrip Text.starts_with is_space
  table_sep raw =
      Text.starts_with (drop_one b':' (lstrip_space (drop_one b'|' (lstrip_space raw)))) "--"

  -- (?:/\S*)?$
  abbrev path_re : String → Bool
  path_re String.[] = true
  path_re (c ∷ˢ s) = is b'/' c && all_chars (λ d. not (is_space I.libs d)) s

  -- (?::\d+)?(?:/\S*)?$
  abbrev port_re : String → Bool
  port_re String.[] = true
  port_re (c ∷ˢ s) =
      if is b':' c then starts is_digit s && path_re (Text.lstrip is_digit s) else path_re (c ∷ˢ s)

  -- _HOST_ENTRY_RE.match(token)
  unfoldable pub host_entry_re : String → Bool
  unfolding Text.starts_with Text.drop Text.before Text.split Text.lstrip is_space
  host_entry_re token =
      let s = if Text.starts_with token "*." then Text.drop 2 token else token in
      let host = Text.before (λ c. is b':' c || is b'/' c) s in
      host_labels (Text.split (is b'.') host) && port_re (Text.drop (len host) s)

  -- _host_entry
  unfoldable pub host_entry : String → Option String
  unfolding drop_bullet host_entry_re looks_like_cidr looks_like_ip Text.strip is_space
  host_entry line =
      let token = drop_bullet (Text.strip (is_space I.libs) line) in
      if token == "" || any_char (is 32) token || any_char (is 9) token
      then none
      else if looks_like_cidr I token || looks_like_ip I token || host_entry_re token
      then some token
      else none
