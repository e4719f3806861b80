-- ===== src/Importer/Files.antt =====
-- The sniffer and the entry points of src/bbagent/importer/core.py. The text of a file, the answer of
-- a page and the model that rewrites a brief are arguments.
pub mod Kept
pub mod Safety
use bugbounty_agent.Base.{
  Char, code, String, Bool, true, false, ◌&&◌, ◌||◌, Option, none, some, List, [], ◌∷◌, ◌==◌,
  if◌then◌else◌, Result, ok, err,
}
use Prim.Native.String.{◌∷◌ as ◌∷ˢ◌}
use bugbounty_agent.Base.Results.{◌>>=◌, ◌>>◌, expect, guard}
use bugbounty_agent.Base.Text
use bugbounty_agent.Base.Text.{◌<>◌, is, any_char}
use bugbounty_agent.Scope.Canonical.{is_space, lower}
use bugbounty_agent.Scope.Models.{ScopeConfig}
use bugbounty_agent.Scope.Url.{urlsplit, hostname}
use bugbounty_agent.Importer.Values.{
  Value, null, bool, number, date, text, array, object, end, field, nil, item, Importing, Error,
  is_import_error, unknown_shape, json_error, value_error, no_llm, not_a_brief,
}
use bugbounty_agent.Importer.Draft.{ScopeDraft, Meta, to_scope_config}
use bugbounty_agent.Importer.Platforms.{
  parse_hackerone, parse_bugcrowd, parse_embedded, parse_html_best_effort, parse_plaintext,
}
use bugbounty_agent.Importer.Brief.{starts}
use bugbounty_agent.Importer.Brief.Parse.{looks_like_brief, import_brief}

-- data if isinstance(data, dict) else {"data": data}
unfoldable pub wrapped : Value → Value
wrapped (object fs) = object fs
wrapped v = object (field "data" v end)

-- a parser of the sniffer's loop, and what comes after it if it raises an ImportError_
unfoldable pub or_next : Result Error ScopeDraft → Result Error ScopeDraft → Result Error ScopeDraft
unfolding is_import_error
or_next (ok d) next = ok d
or_next (err e) next = if is_import_error e then next else err e

-- A page that has a policy keeps it.
unfoldable pub with_policy_url : String → ScopeConfig → ScopeConfig
with_policy_url url cfg = elim cfg.program.policy_url [
  | some policy ↦ cfg
  | none ↦ record cfg { program = record (cfg.program) { policy_url = some url } }
]

abbrev pub or_default : Option String → String → String
or_default none name = name
or_default (some given) name = if given == "" then name else given

abbrev pub first_or : String → List String → String
first_or name [] = name
first_or name (s ∷ l) = if s == "" then name else s

module _ (I : Importing) where
  unfoldable pub parse_json : String → Result Error ScopeDraft
  unfolding or_next wrapped parse_hackerone parse_bugcrowd
  parse_json t = do
    data' ← expect json_error (I.json_loads t)
    or_next (parse_hackerone I (wrapped data'))
        (or_next (parse_bugcrowd I (wrapped data')) (err unknown_shape))

  unfoldable pub parse_page : String → Result Error ScopeDraft
  unfolding parse_embedded parse_html_best_effort
  parse_page t = do
    embedded ← parse_embedded I t
    elim embedded [ some d ↦ ok d | none ↦ parse_html_best_effort I t ]

  unfoldable pub is_page : String → Bool
  unfolding Text.take Text.has
  is_page t =
      let head = lower I.libs (Text.take 2000 t) in
      any_char (is b'<') (Text.take 2000 t)
      && (Text.has head "<html" || Text.has head "data-react" || Text.has head "<script")

  -- _sniff_and_parse; it does not read the platform
  unfoldable pub sniff_and_parse : String → Result Error ScopeDraft
  unfolding parse_json parse_page is_page parse_plaintext Text.strip is_space
  sniff_and_parse given =
      let t = Text.strip (is_space I.libs) given in
      if starts (λ c. is b'{' c || is b'[' c) t
      then parse_json t
      else if is_page t
      then parse_page t
      else parse_plaintext I t

  -- (urlsplit(url).hostname or "").lower()
  unfoldable pub platform_of : String → Result Error String
  unfolding Text.has
  platform_of url = do
    parts ← expect value_error (urlsplit I.libs url)
    let host = lower I.libs (hostname I.libs parts)
    ok (
        if Text.has host "hackerone"
        then "hackerone"
        else if Text.has host "bugcrowd"
        then "bugcrowd"
        else "other")

  -- structure_brief_with_llm: the model is none where the package or the key is missing
  unfoldable pub structure_brief_with_llm : Option (String → String) → String → Result Error String
  unfolding Text.strip Text.lstrip Text.drop Text.take Text.starts_with is_space Text.before_text
      looks_like_brief
  structure_brief_with_llm none raw_text = err no_llm
  structure_brief_with_llm (some ask) raw_text =
      let answer = Text.strip (is_space I.libs) (ask (Text.take 120000 raw_text)) in
      let out =
        if Text.starts_with answer "```"
        then Text.strip (is_space I.libs) (
            Text.lstrip (Text.any_of "md")
              (Text.lstrip (Text.any_of "markdown") (Text.before_text "```" (Text.drop 3 answer))))
        else answer in
      (do guard (looks_like_brief I out) not_a_brief; ok out)

  -- the meta of an import that is no brief
  abbrev pub plain_meta : String → String → Value → Meta
  plain_meta name platform policy_url = record {
    program_name = name;
    platform = platform;
    policy_url = policy_url;
    authorized_until = null;
    last_verified_at = null;
    rate_limits = none;
  }

  unfoldable pub import_text : String → Option String → Result Error ScopeConfig
  unfolding looks_like_brief import_brief sniff_and_parse to_scope_config
  import_text t program_name = if looks_like_brief I t then import_brief I t program_name else (do
    draft ← sniff_and_parse t
    to_scope_config I draft (plain_meta (or_default program_name "Imported Program") "other" null))

  -- import_from_file, from the text of the file on
  unfoldable pub import_from_file :
      Option (String → String) → String → Option String → Bool → Result Error ScopeConfig
  unfolding structure_brief_with_llm import_text
  import_from_file model content program_name use_llm = do
    t ← if use_llm then structure_brief_with_llm model content else ok content
    import_text t program_name

  unfoldable pub handle_of : String → Result Error String
  unfolding Text.strip Text.split
  handle_of url = do
    parts ← expect value_error (urlsplit I.libs url)
    ok (first_or "program" (Text.split (is b'/') (Text.strip (is b'/') parts.path)))

  unfoldable pub import_page :
      String → String → String → Option String → String → Result Error ScopeConfig
  unfolding looks_like_brief import_brief with_policy_url sniff_and_parse to_scope_config
  import_page platform handle url program_name t =
      let name = or_default program_name (platform <> ":" <> handle) in
      if looks_like_brief I t
      then (do cfg ← import_brief I t (some name); ok (with_policy_url url cfg))
      else (do
        draft ← sniff_and_parse t
        to_scope_config I draft (plain_meta name platform (text url)))

  unfoldable pub import_from_url :
      String → (String → Result Error String) → Option String → Result Error ScopeConfig
  unfolding platform_of handle_of import_page
  import_from_url url fetch program_name = do
    platform ← platform_of url
    t ← fetch url
    handle ← handle_of url
    import_page platform handle url program_name t
