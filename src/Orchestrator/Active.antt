-- ===== src/Orchestrator/Active.antt =====
-- The phases of src/bbagent/orchestrator/orchestrator.py that reach the target: _dns_enrich,
-- _enumerate and _update_probe.
use bugbounty_agent.Base.{
  ℕ, ◌+◌, String, Bool, true, false, ◌||◌, Option, none, some, List, [], ◌∷◌, ◌==◌, contains,
  if◌then◌else◌, ok, err,
}
use bugbounty_agent.Scope.Models.{allowed}
use bugbounty_agent.Store.Models.{
  AssetKind, in_scope, ResolveState, ProbeState, resolved, unresolvable, unprobed, live, dead,
  key_of, kind_value, Dict,
}
use bugbounty_agent.Store.Findings.{
  FindingsStore, AssetRow, Columns, select_assets, update_asset_state, update_asset_extra,
}
use bugbounty_agent.Kernel.Approval.{ApprovalRequest, approve}
use bugbounty_agent.Kernel.Auth.{Headers, is_empty}
use bugbounty_agent.Kernel.Gate.{active_preconditions_ok, scope_check}
use bugbounty_agent.Orchestrator.{
  Orchestrator, DnsResult, ProbeResult, Run, State, contact, say, leased, dns, resolve, probe,
  halted_active_not_allowed, awaiting_approval, enumeration_skipped, no_action_approved,
  not_approved, denied_resolved,
}

-- r["kind"] in (domain, subdomain)
unfoldable pub is_host_kind : AssetKind → Bool
unfolding kind_value
is_host_kind k = kind_value k == "domain" || kind_value k == "subdomain"

unfoldable pub host_rows : List AssetRow → List AssetRow
unfolding is_host_kind
host_rows [] = []
host_rows (row ∷ rows) =
    let rest = host_rows rows in if is_host_kind row.kind then row ∷ rest else rest

-- _KEEP_HEADERS, and the headers of an answer that are kept
abbrev keep_headers : List String
keep_headers =
    "access-control-allow-origin" ∷ "access-control-allow-credentials" ∷ "x-powered-by" ∷ "location"
    ∷ "server" ∷ []

unfoldable pub kept : Headers → Headers
unfolding contains
kept [] = []
kept ((k, v) ∷ headers) =
    let rest = kept headers in if contains keep_headers k then (k, v) ∷ rest else rest

-- the columns that _dns_enrich sets for a host with an alias that does not resolve
abbrev pub unresolved_only : Columns
unresolved_only = record {
  resolve_state = some unresolvable;
  probe_state = none;
  status = none;
  scope_decision_id = none;
}

module _ (o : Orchestrator) where
  -- _update_probe
  unfoldable pub update_probe :
      FindingsStore → AssetRow → ResolveState → ProbeState → Option ℕ → Option Dict → FindingsStore
  unfolding key_of kind_value
  update_probe s row resolve_state probe_state decision extra =
      let key = key_of row.kind row.value in
      let s' = update_asset_state o.hashing s key (record {
        resolve_state = some resolve_state;
        probe_state = some probe_state;
        status =
            some (elim probe_state [ unprobed ↦ "new" | live ↦ "enriched" | dead ↦ "enriched" ]);
        scope_decision_id = elim decision [ some d ↦ some d | none ↦ some row.scope_decision_id ];
      }) in
      elim extra [
        | none ↦ s'
        | some [] ↦ s'
        | some (e ∷ es) ↦ update_asset_extra o.hashing s' key (e ∷ es)
      ]

  -- the request of _enumerate for a host
  unfoldable pub request_for : String → ApprovalRequest
  request_for host = record {
    program = o.config.program.name;
    tool = "liveness-probe";
    argv = "<builtin>" ∷ "HEAD" ∷ host ∷ [];
    targets = host ∷ [];
    is_active = true;
    phase = "ENUMERATION";
    run_id = o.scope_hash;
    rationale = "liveness check (single HEAD, no redirects) on an in-scope host";
    out_of_scope_notes = o.config.out_of_scope.notes;
    est_requests = 1;
    rps = o.config.rate_limits.requests_per_second;
    concurrency = o.config.rate_limits.max_concurrency;
  }

  -- auth_headers: a dict that is empty counts as None
  unfoldable pub auth_headers : Option Headers
  unfolding is_empty
  auth_headers = elim o.auth [
    | none ↦ none
    | some profile ↦ if is_empty profile then none else some profile.headers
  ]

  -- extra
  unfoldable pub probe_extra : ProbeResult → String → Dict
  unfolding kept auth_headers
  probe_extra result addr =
      ("status_code", o.json.number result.status_code)
      ∷ ("server", o.json.optional result.server)
      ∷ ("ip", o.json.str addr)
      ∷ ("headers", o.json.object (kept result.headers))
      ∷ ("authenticated", elim auth_headers [ none ↦ "false" | some h ↦ "true" ])
      ∷ []

  -- the probe of a host that the gate allows on its addresses, and what is made of the answer
  unfoldable pub probed : AssetRow → String → ℕ → Run → Run
  unfolding update_probe probe_extra auth_headers leased
  probed row addr decision r =
      let result = o.probe_fn row.value addr auth_headers in
      let r' = leased o (probe row.value addr auth_headers) r in
      record r' {
        store =
            update_probe r'.store row resolved (if result.alive then live else dead) (some decision)
              (some (probe_extra result addr));
        summary = record r'.summary {
          probed = r'.summary.probed + 1;
          live_hosts = (if result.alive then r'.summary.live_hosts + 1 else r'.summary.live_hosts);
        };
      }

  -- what _enumerate does with a host once its probe is approved
  unfoldable pub approved_host : AssetRow → Run → Run
  unfolding update_probe probed scope_check
  approved_host row r =
      let r' = contact (resolve row.value) r in
      elim (o.resolve_fn row.value) [
        | [] ↦ record r' { store = update_probe r'.store row unresolvable unprobed none none }
        | addr ∷ addrs ↦
            let (s, d, id) =
              scope_check o.libs o.hashing o.matcher r'.store row.value (some (addr ∷ addrs)) in
            let checked = record r' { store = s } in
            if allowed d
            then probed row addr id checked
            else say (denied_resolved row.value d.reason) checked
      ]

  -- the loop over the rows: the run, the burned fingerprints and approved_any
  unfoldable pub enumerate_rows : List AssetRow → Run → List String → Bool → Run × Bool
  unfolding approved_host request_for approve
  enumerate_rows [] r burned any = (r, any)
  enumerate_rows (row ∷ rows) r burned any =
      let request = request_for row.value in
      let (granted, burned') = approve o.digest burned request (o.review request) in
      enumerate_rows rows (if granted then approved_host row r else say (not_approved row.value) r)
        burned' (any || granted)

  abbrev pub set_state : State → Run → Run
  set_state st r = record r { summary = record r.summary { state = st } }

  -- _enumerate
  unfoldable pub enumerate : Run → Run
  unfolding enumerate_rows host_rows select_assets
  enumerate r = elim (active_preconditions_ok o.config o.today) [
    | err why ↦ say enumeration_skipped (set_state halted_active_not_allowed r)
    | ok t ↦
        let rows = host_rows (select_assets (some in_scope) (some "new") none r.store.assets) in
        let (r', any) = enumerate_rows rows r [] false in
        if any then r' else say no_action_approved (set_state awaiting_approval r')
  ]

  -- what _dns_enrich merges into the extra of a host
  unfoldable pub dns_extra : DnsResult → Dict
  dns_extra res =
      ("cname_chain", o.json.array res.cname_chain)
      ∷ ("resolves", if res.resolves then "true" else "false")
      ∷ []

  -- if not res.resolves and res.cname_chain: ...
  unfoldable pub note_dangling : String → List String → Bool → FindingsStore → FindingsStore
  note_dangling key [] resolves s = s
  note_dangling key (name ∷ names) true s = s
  note_dangling key (name ∷ names) false s = update_asset_state o.hashing s key unresolved_only

  -- the body of the loop of _dns_enrich
  unfoldable pub enrich_row : AssetRow → Run → Run
  unfolding leased
  enrich_row row r =
      let key = key_of row.kind row.value in
      let r' = leased o (dns row.value) r in
      let res = o.dns_fn row.value in
      let s = update_asset_extra o.hashing r'.store key (dns_extra res) in
      record r' { store = note_dangling key res.cname_chain res.resolves s }

  unfoldable pub enrich_rows : List AssetRow → Run → Run
  unfolding enrich_row
  enrich_rows [] r = r
  enrich_rows (row ∷ rows) r = enrich_rows rows (enrich_row row r)

  -- _dns_enrich
  unfoldable pub dns_enrich : Run → Run
  unfolding enrich_rows host_rows select_assets
  dns_enrich r = elim (active_preconditions_ok o.config o.today) [
    | err why ↦ r
    | ok t ↦ enrich_rows (host_rows (select_assets (some in_scope) none none r.store.assets)) r
  ]
