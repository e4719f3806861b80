-- ===== src/Orchestrator/Analysis.antt =====
-- _analyze of src/bbagent/orchestrator/orchestrator.py: the hosts of the store as inputs of the
-- ranking, and the focus map that is written. It reads the store and changes nothing in it.
pub mod Sources
use bugbounty_agent.Base.{
  ℕ, String, Bool, true, false, not, ◌&&◌, ◌||◌, Option, none, some, List, [], ◌∷◌, ◌==◌, map, take,
  contains, if◌then◌else◌,
}
use bugbounty_agent.Store.Models.{in_scope, AssetKind, Dict, kind_value}
use bugbounty_agent.Store.Findings.{FindingsStore, AssetRow, select_assets}
use bugbounty_agent.Kernel.Auth.{Headers}
use bugbounty_agent.Intel.Ranking.{HostInput, AssetPriority, Scoring, prioritize}
use bugbounty_agent.Intel.Report.{render_focus_map}
use bugbounty_agent.Reason.{Hypotheses}

-- The values of JSON texts: none, the empty list and the empty headers where a text has no such value.
pub record Parsing : Type 0 where
  pub as_text : String → Option String
  pub as_number : String → Option ℕ
  pub as_bool : String → Option Bool
  pub as_texts : String → List String
  pub as_headers : String → Headers

-- what _analyze makes besides the file: report and summary.focus_top
pub record Analysis : Type 0 where
  pub ranked : List AssetPriority
  pub report : String
  pub focus_top : List (String × String × ℕ)

-- extra.get(key)
unfoldable pub extra_get : String → Dict → Option String
extra_get key [] = none
extra_get key ((k, v) ∷ extra) = if k == key then some v else extra_get key extra

abbrev then_get : {A : Type 0} → Option String → (String → Option A) → Option A
then_get none f = none
then_get (some v) f = f v

abbrev or_none : {A : Type 0} → Option String → (String → List A) → List A
or_none none f = []
or_none (some v) f = f v

-- a text that is there and not empty, appended for its host
abbrev of_host : String → Option String → Option String → List String → List String
of_host host none v rest = rest
of_host host (some h) none rest = rest
of_host host (some h) (some v) rest =
    if h == host && not (h == "") && not (v == "") then v ∷ rest else rest

-- focus_top
unfoldable pub top_of : List AssetPriority → List (String × String × ℕ)
top_of ranked = map (λ (a : AssetPriority). (a.host, a.tier, a.score)) (take 10 ranked)

-- kind in (DOMAIN, SUBDOMAIN, HOST)
unfoldable pub is_ranked_kind : AssetKind → Bool
unfolding kind_value
is_ranked_kind k = contains ("domain" ∷ "subdomain" ∷ "host" ∷ []) (kind_value k)

unfoldable pub host_rows_of : List AssetRow → List AssetRow
unfolding is_ranked_kind
host_rows_of [] = []
host_rows_of (row ∷ rows) =
    let rest = host_rows_of rows in if is_ranked_kind row.kind then row ∷ rest else rest

module _ (J : Parsing) where
  -- paths_by_host.get(host, []) and queries_by_host.get(host, []), by the key of the extra
  unfoldable pub collected : String → String → List AssetRow → List String
  unfolding extra_get kind_value
  collected key host [] = []
  collected key host (row ∷ rows) =
      let rest = collected key host rows in
      if kind_value row.kind == kind_value AssetKind.url
      then of_host host (then_get (extra_get "host" row.extra) J.as_text)
          (then_get (extra_get key row.extra) J.as_text) rest
      else rest

  unfoldable pub input_of : List AssetRow → AssetRow → HostInput
  unfolding extra_get collected
  input_of rows row = record {
    host = row.value;
    status_code = then_get (extra_get "status_code" row.extra) J.as_number;
    server = then_get (extra_get "server" row.extra) J.as_text;
    probe_state = row.probe_state;
    paths = collected "path" row.value rows;
    queries = collected "query" row.value rows;
    headers = or_none (extra_get "headers" row.extra) J.as_headers;
    cname_chain = or_none (extra_get "cname_chain" row.extra) J.as_texts;
    resolves = then_get (extra_get "resolves" row.extra) J.as_bool;
  }

  module _ (S : Scoring) (hypotheses : String → List AssetPriority → Hypotheses) where
    -- the ranking that _analyze makes of a store
    unfoldable pub ranking_of : FindingsStore → List AssetPriority
    unfolding select_assets input_of host_rows_of prioritize
    ranking_of s =
        let rows = select_assets (some in_scope) none none s.assets in
        prioritize S (map (input_of rows) (host_rows_of rows))

    -- _analyze, for the name of a program
    unfoldable pub analyze : String → FindingsStore → Analysis
    unfolding ranking_of render_focus_map top_of
    analyze program s =
        let ranked = ranking_of s in
        record {
          ranked = ranked;
          report = render_focus_map S program ranked (hypotheses program ranked) 40;
          focus_top = top_of ranked;
        }
