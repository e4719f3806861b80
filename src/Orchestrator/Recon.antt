-- ===== src/Orchestrator/Recon.antt =====
-- The passive phase of src/bbagent/orchestrator/orchestrator.py: _seeds, _store_host, _recon and
-- _ingest_urls. An exception ends the run; it carries what the run has made.
use bugbounty_agent.Base.{
  ℕ, ◌+◌, String, ◌||◌, Option, none, some, List, [], ◌∷◌, ◌++◌, map, ◌==◌, set_add, if◌then◌else◌,
  Result, ok, err,
}
use bugbounty_agent.Base.Results.{◌>>=◌}
use bugbounty_agent.Base.Sorted.{sorted}
use bugbounty_agent.Base.Text
use bugbounty_agent.Scope.Libs.{Libs}
use bugbounty_agent.Scope.Matcher.{wildcard_base}
use bugbounty_agent.Scope.Url.{host_from_url, urlsplit}
use bugbounty_agent.Store.Models.{
  AssetKind, ScopeStatus, in_scope, out_of_scope, unverified, pending, unprobed, key_of, kind_value,
}
use bugbounty_agent.Store.Findings.{FindingsStore, write_asset, asset_exists, count_assets}
use bugbounty_agent.Kernel.Gate.{scope_check, scope_status_for}
use bugbounty_agent.Orchestrator.{Orchestrator, Source, Run, leased, discover, archived}

-- registrable_domain(host) or host
abbrev registrable : Libs → String → String
registrable L host = let reg = L.registered_domain host in if reg == "" then host else reg

-- the set of the seeds
collect : Libs → List String → List String
collect L [] = []
collect L (host ∷ hosts) =
    let rest = collect L hosts in
    if registrable L host == "" then rest else set_add (registrable L host) rest

unfoldable pub seeds : Orchestrator → List String
unfolding collect wildcard_base
seeds o =
    sorted
      (collect o.libs (o.config.in_scope.domains ++ map wildcard_base o.config.in_scope.subdomains))

-- decision.canonical_host or host
unfoldable pub named : Option String → String → String
named none host = host
named (some canon) host = if canon == "" then host else canon

module _ (o : Orchestrator) where
  -- _store_host; the asset has a decision, so upsert_asset writes it
  unfoldable pub store_host :
      FindingsStore → String → String → ScopeStatus → ℕ → String → FindingsStore
  unfolding asset_exists key_of kind_value
  store_host s canon seed status decision source =
      if asset_exists s (key_of AssetKind.subdomain canon)
        || asset_exists s (key_of AssetKind.domain canon)
      then s
      else (write_asset o.hashing s
          (record {
            kind = if canon == seed then AssetKind.domain else AssetKind.subdomain;
            value = canon;
            scope_status = status;
            source = source;
            resolve_state = pending;
            probe_state = unprobed;
            status = "new";
            scope_decision_id = some decision;
            extra = [];
          })
          decision).0

  -- the body of the loop over the hosts of a source
  unfoldable pub found_host : String → String → String → Run → Run
  unfolding store_host scope_check scope_status_for named
  found_host seed source host r =
      let (s, d, id) = scope_check o.libs o.hashing o.matcher r.store host none in
      let stored = record r {
        store = store_host s (named d.canonical_host host) seed (scope_status_for d) id source;
      } in
      elim (scope_status_for d) [
        | unverified ↦ record r {
          store = s;
          summary = record r.summary {
            assets_unverified_skipped = r.summary.assets_unverified_skipped + 1;
          };
        }
        | in_scope ↦ stored
        | out_of_scope ↦ stored
      ]

  unfoldable pub found_hosts : String → String → List String → Run → Run
  unfolding found_host
  found_hosts seed source [] r = r
  found_hosts seed source (host ∷ hosts) r =
      found_hosts seed source hosts (found_host seed source host r)

  -- the part of _ingest_urls behind the scope check of a host that is in scope
  unfoldable pub store_url : FindingsStore → String → String → ℕ → String → Option FindingsStore
  unfolding asset_exists key_of kind_value Text.take
  store_url s url host decision source = elim (urlsplit o.libs url) [
    | none ↦ none
    | some parts ↦
        let value = Text.take 500 url in
        if asset_exists s (key_of AssetKind.url value)
        then some s
        else some
            (write_asset o.hashing s
              (record {
                kind = AssetKind.url;
                value = value;
                scope_status = in_scope;
                source = source;
                resolve_state = pending;
                probe_state = unprobed;
                status = "new";
                scope_decision_id = some decision;
                extra =
                    ("host", o.json.str host)
                    ∷ ("path", o.json.str (if parts.path == "" then "/" else parts.path))
                    ∷ ("query", o.json.str parts.query)
                    ∷ [];
              })
              decision).0
  ]

  -- the body of _ingest_urls
  unfoldable pub found_url : String → String → String → Run → Result Run Run
  unfolding store_host scope_check scope_status_for
  found_url seed source url r = elim (host_from_url o.libs url) [
    | err e ↦ ok r
    | ok host ↦
        let (s, d, id) = scope_check o.libs o.hashing o.matcher r.store host none in
        let s' = store_host s host seed (scope_status_for d) id source in
        elim (scope_status_for d) [
          | unverified ↦ ok (record r { store = s })
          | out_of_scope ↦ ok (record r { store = s' })
          | in_scope ↦ elim (store_url s' url host id source) [
            | none ↦ err (record r { store = s' })
            | some stored ↦ ok (record r { store = stored })
          ]
        ]
  ]

  unfoldable pub ingest_urls : String → String → List String → Run → Result Run Run
  unfolding found_url
  ingest_urls seed source [] r = ok r
  ingest_urls seed source (url ∷ urls) r = do
    r' ← found_url seed source url r
    ingest_urls seed source urls r'

  -- the loops over the sources
  unfoldable pub ask_sources : String → List Source → Run → Run
  unfolding found_hosts leased
  ask_sources seed [] r = r
  ask_sources seed (source ∷ sources) r =
      ask_sources seed sources
        (found_hosts seed source.name (source.find seed) (leased o (discover source.name seed) r))

  unfoldable pub ask_archives : String → List Source → Run → Result Run Run
  unfolding leased
  ask_archives seed [] r = ok r
  ask_archives seed (source ∷ sources) r = do
    r' ← ingest_urls seed source.name (source.find seed) (leased o (archived source.name seed) r)
    ask_archives seed sources r'

  unfoldable pub visit : List String → Run → Result Run Run
  visit [] r = ok r
  visit (seed ∷ rest) r = do
    r' ← ask_archives seed o.url_sources (ask_sources seed o.passive_sources r)
    visit rest r'

  -- what _recon counts at its end
  unfoldable pub counted : Run → Run
  unfolding count_assets
  counted r =
      let hosts : AssetKind → ℕ = λ k. count_assets (some in_scope) none (some k) r.store.assets in
      record r {
        summary = record r.summary {
          assets_in_scope =
              hosts AssetKind.subdomain + hosts AssetKind.domain + hosts AssetKind.host;
          assets_out_of_scope = count_assets (some out_of_scope) none none r.store.assets;
          urls = count_assets none none (some AssetKind.url) r.store.assets;
        };
      }

  -- _recon
  unfoldable pub recon : Run → Result Run Run
  unfolding seeds counted
  recon r = do r' ← visit (seeds o) r; ok (counted r')
