-- ===== src/Tests/Rankings.antt =====
-- The signals, the ranking, the report and the reasoners at concrete inputs.
use mathlib.Core.List.{Perm}
use bugbounty_agent.Base.{
  ◌-◌, ltb, Char, code, if◌then◌else◌, ℕ, ◌≡◌, refl, true, ◌||◌, Option, none, some, [], ◌∷◌, map,
  All, Any, ◌↔◌, contains, set_add,
}
use bugbounty_agent.Base.Text
use bugbounty_agent.Base.Sorted.{sorted, sort_by, insert_by, IsPairwise}
use bugbounty_agent.Scope.Canonical.{lower, is_space, is_ascii, is_lower_alnum}
use bugbounty_agent.Store.Models.{live}
use bugbounty_agent.Intel.Tables.{
  path_raw, sensitive_exts, bucket_patterns, param_table, server_table, vuln_ranges,
}
use bugbounty_agent.Intel.Signals.{Signal, get, non_empty}
use bugbounty_agent.Intel.Paths.{
  path_signals, path_loop, path_step, needles, buckets, sensitive, script, sensitive_ext, ext_of,
  is_ext, has_segment, once,
}
use bugbounty_agent.Intel.Params.{
  param_signals, param_signal, best_of, keep_best, stronger, query_names, add_names,
}
use bugbounty_agent.Intel.Servers.{
  server_signals, server_tokens, server_needles, version_signal, version_finding, version_in,
  version_at, range_of, tuple_le, vtuple, numbers,
}
use bugbounty_agent.Intel.Ranking.{HostInput, AssetPriority, Scoring, score_host, prioritize}
use bugbounty_agent.Intel.Ranking.Order.{Precedes, prioritize-IsRanking}
use bugbounty_agent.Intel.Report.{focus_lines}
use bugbounty_agent.Intel.Report.Critical.{Shows, focus_lines-critical}
use bugbounty_agent.Importer.Values.{text, array, object, item, nil, field, end}
use bugbounty_agent.Reason.{Client, anthropic_hypotheses, valid_entries, payload, answer_json}
use bugbounty_agent.Reason.Annotation.{IsAnnotation, anthropic_hypotheses-IsAnnotation}
use bugbounty_agent.Orchestrator.Analysis.{Parsing, analyze}
use bugbounty_agent.Orchestrator.Analysis.Sources.{IsInScopeHost, analyze-host_iff}
use bugbounty_agent.Tests.Targets.{toy}
use bugbounty_agent.Tests.Records.{stored}

abbrev digit : Char → Option ℕ
digit c = if ltb (code c) b'0' || ltb b'9' (code c) then none else some (code c - b'0')

abbrev scoring : Scoring
scoring = record { libs = toy; parse_qs = λ s. s ∷ []; decimal = digit; str = λ n. "n" }

-- `/admin` is not found in `/administrator`, and an extension only at the end of a segment
admin_paths :
    map
      (λ (s : Signal). s.weight)
      (path_signals (lower toy) ("/Admin/" ∷ "/administrator" ∷ "/db.sql?x" ∷ "/a.sqlx" ∷ []))
    ≡ 6 ∷ 8 ∷ []
unfolding path_signals path_loop path_step needles buckets sensitive script sensitive_ext ext_of
    is_ext has_segment once path_raw sensitive_exts bucket_patterns contains lower is_ascii
    Text.lower_char Text.before Text.starts_with Text.ends_with Text.has Text.drop Text.take
admin_paths = refl

-- one signal for each class of parameters, the strongest first
classes :
    map
      (λ (s : Signal). s.weight)
      (param_signals (λ s. s ∷ []) (lower toy) ("q" ∷ "id" ∷ "uid" ∷ "next" ∷ "cmd" ∷ []))
    ≡ 8 ∷ 7 ∷ 6 ∷ []
unfolding param_signals param_signal best_of keep_best stronger query_names add_names get
    param_table set_add contains sorted sort_by insert_by lower is_ascii Text.lower_char Text.le
classes = refl

-- a vulnerable version, compared as a tuple of numbers
old_apache :
    map (λ (s : Signal). s.weight) (server_signals toy digit (some "Apache/2.4.49 (Unix)"))
    ≡ 1 ∷ 9 ∷ []
unfolding server_signals server_tokens server_needles version_signal version_finding version_in
    version_at range_of tuple_le vtuple numbers non_empty server_table vuln_ranges contains lower
    is_ascii is_lower_alnum Text.lower_char Text.split Text.before Text.drop
old_apache = refl

abbrev admin : HostInput
admin = record {
  host = "admin.example.com";
  status_code = some 401;
  server = some "Apache/2.4.49";
  probe_state = live;
  paths = "/.git" ∷ [];
  queries = [];
  headers = [];
  cname_chain = [];
  resolves = none;
}

abbrev www : HostInput
www = record admin { host = "www.example.com"; paths = []; status_code = none; server = none }

prioritize-IsRanking_example :
    Perm (prioritize scoring (www ∷ admin ∷ [])) (map (score_host scoring) (www ∷ admin ∷ []))
    × IsPairwise Precedes (prioritize scoring (www ∷ admin ∷ []))
prioritize-IsRanking_example = prioritize-IsRanking scoring (www ∷ admin ∷ [])

abbrev git_host : AssetPriority
git_host = record {
  host = "git.example.com";
  score = 19;
  tier = "critical";
  signals = [];
  actions = [];
  live = true;
}

focus_lines-critical_example :
    All
      (λ (a : AssetPriority).
        a.tier ≡ "critical"
        → Shows scoring [] 0 (focus_lines scoring "acme" (git_host ∷ []) [] 0) a)
      (git_host ∷ [])
focus_lines-critical_example = focus_lines-critical scoring [] 0 "acme" (git_host ∷ [])

-- a model that also speaks of a host that is not ranked
abbrev client : Client
client = record {
  available = true;
  dumps = λ ranked. "[]";
  ask = λ prompt. some "{}";
  loads = λ s. some (
      object (
        field "git.example.com" (array (item (text "a") nil))
          (field "evil.com" (array (item (text "b") nil)) end)));
  str = λ v. "";
}

answered :
    anthropic_hypotheses scoring client "acme" (git_host ∷ []) ≡ ("git.example.com", "a" ∷ []) ∷ []
unfolding anthropic_hypotheses valid_entries payload answer_json contains Text.starts_with
    Text.strip Text.lstrip Text.rstrip is_space is_ascii
answered = refl

anthropic_hypotheses-IsAnnotation_example :
    IsAnnotation
      ("git.example.com" ∷ [])
      (anthropic_hypotheses scoring client "acme" (git_host ∷ []))
anthropic_hypotheses-IsAnnotation_example =
    anthropic_hypotheses-IsAnnotation scoring client "acme" (git_host ∷ [])

abbrev parsing : Parsing
parsing = record {
  as_text = λ s. some s;
  as_number = λ s. none;
  as_bool = λ s. none;
  as_texts = λ s. [];
  as_headers = λ s. [];
}

analyze-host_iff_example :
    Any
      (λ (a : AssetPriority). a.host ≡ "www.example.com")
      ((analyze parsing scoring (anthropic_hypotheses scoring client) "acme" stored).ranked)
    ↔ IsInScopeHost stored.assets "www.example.com"
analyze-host_iff_example =
    analyze-host_iff parsing scoring (anthropic_hypotheses scoring client) "acme" stored
      "www.example.com"
