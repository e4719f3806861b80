-- ===== src/Orchestrator/Kept.antt =====
-- What the active phases of src/bbagent/orchestrator/orchestrator.py, and a whole run, do to the
-- findings store.
use bugbounty_agent.Base.{
  ℕ, inl, inr, subst, String, Bool, true, false, Option, none, some, List, [], ◌∷◌, Bool-cases,
  ◌||◌, ok,
}
use bugbounty_agent.Base.Results.{Result-cases}
use bugbounty_agent.Scope.Models.{allowed}
use bugbounty_agent.Scope.Decide.{decide}
use bugbounty_agent.Store.Models.{Dict, in_scope, key_of, ResolveState, ProbeState}
use bugbounty_agent.Store.Findings.{
  FindingsStore, AssetRow, record_run, select_assets, record_scope_decision,
}
use bugbounty_agent.Store.Findings.Calls
use bugbounty_agent.Store.Findings.Calls.{Call, perform, stepped, step-IsValid}
use bugbounty_agent.Store.Findings.Invariant.{IsValid}
use bugbounty_agent.Kernel.Approval.{approve}
use bugbounty_agent.Kernel.Gate.{active_preconditions_ok, scope_check}
use bugbounty_agent.Orchestrator.{Orchestrator, Run, leased, resolve, contact, say, not_approved}
use bugbounty_agent.Orchestrator.Recon.{recon}
use bugbounty_agent.Orchestrator.Active.{
  request_for, approved_host, probed, update_probe, probe_extra, auth_headers, dns_extra,
  note_dangling, unresolved_only, enumerate_rows, enumerate, enrich_row, enrich_rows, dns_enrich,
  host_rows,
}
use bugbounty_agent.Orchestrator.Runs.{Mode, recon_only, full, mode_value, run}
use bugbounty_agent.Orchestrator.Contacts.{left}
use bugbounty_agent.Orchestrator.Lawful.{list_cases}
use bugbounty_agent.Orchestrator.Stored.{recon-keeps}

module _ (o : Orchestrator) (P : FindingsStore → Type 0)
    (keeps : (s : FindingsStore) (c : Call)
      → P s
      → P (stepped o.hashing s (perform o.hashing s c))) where
  update_probe-keeps :
      (s : FindingsStore) (row : AssetRow) (rs : ResolveState) (ps : ProbeState) (d : Option ℕ)
      (extra : Option Dict)
      → P s
      → P (update_probe o s row rs ps d extra)
  unfolding update_probe
  update_probe-keeps s row rs ps d none p = keeps s (Calls.state _ _) p
  update_probe-keeps s row rs ps d (some []) p = keeps s (Calls.state _ _) p
  update_probe-keeps s row rs ps d (some (e ∷ es)) p =
      keeps _ (Calls.extra (key_of row.kind row.value) (e ∷ es)) (keeps s (Calls.state _ _) p)

  probed-keeps :
      (row : AssetRow) (addr : String) (d : ℕ) (r : Run)
      → P r.store
      → P (probed o row addr d r).store
  unfolding probed leased
  probed-keeps row addr d r p =
      update_probe-keeps r.store row ResolveState.resolved _ (some d)
        (some (probe_extra o (o.probe_fn row.value addr (auth_headers o)) addr)) p

  approved_host-keeps : (row : AssetRow) (r : Run) → P r.store → P (approved_host o row r).store
  unfolding approved_host scope_check
  approved_host-keeps row r p = elim (list_cases (o.resolve_fn row.value)) [
    | inl e ↦
        rw (approved_host, e)
          (update_probe-keeps r.store row ResolveState.unresolvable ProbeState.unprobed none none p)
    | inr (addr, addrs, e) ↦
        let d = decide o.libs o.matcher row.value (some (addr ∷ addrs)) in
        let now = keeps r.store (Calls.scope_decision d) p in
        elim (Bool-cases (allowed d)) [
          | inl passed ↦
              rw (approved_host, e, passed)
                (probed-keeps row addr (record_scope_decision o.hashing r.store d).1
                  (record (contact (resolve row.value) r) {
                    store = (record_scope_decision o.hashing r.store d).0;
                  })
                  now)
          | inr refused ↦ rw (approved_host, e, refused) now
        ]
  ]

  enumerate_rows-keeps :
      (rows : List AssetRow) (r : Run) (burned : List String) (any : Bool)
      → P r.store
      → P (enumerate_rows o rows r burned any).0.store
  unfolding enumerate_rows
  enumerate_rows-keeps [] r burned any p = p
  enumerate_rows-keeps (row ∷ rows) r burned any p =
      let request = request_for o row.value in
      let answer = approve o.digest burned request (o.review request) in
      elim (Bool-cases answer.0) [
        | inl granted ↦
            rw (enumerate_rows, granted)
              (enumerate_rows-keeps rows (approved_host o row r) answer.1 (any || true)
                (approved_host-keeps row r p))
        | inr refused ↦
            rw (enumerate_rows, refused)
              (enumerate_rows-keeps rows (say (not_approved row.value) r) answer.1 (any || false) p)
      ]

  enumerate-keeps : (r : Run) → P r.store → P (enumerate o r).store
  unfolding enumerate
  enumerate-keeps r p = elim (Result-cases (active_preconditions_ok o.config o.today)) [
    | inl (tt, pre) ↦
        let rows = host_rows (select_assets (some in_scope) (some "new") none r.store.assets) in
        let ended = enumerate_rows-keeps rows r [] false p in
        elim (Bool-cases (enumerate_rows o rows r [] false).1) [
          | inl any ↦ rw (enumerate, pre, any) ended
          | inr none_approved ↦ rw (enumerate, pre, none_approved) ended
        ]
    | inr (why, e) ↦ rw (enumerate, e) p
  ]

  note_dangling-keeps :
      (key : String) (names : List String) (resolves : Bool) (s : FindingsStore)
      → P s
      → P (note_dangling o key names resolves s)
  unfolding note_dangling
  note_dangling-keeps key [] resolves s p = p
  note_dangling-keeps key (name ∷ names) true s p = p
  note_dangling-keeps key (name ∷ names) false s p = keeps s (Calls.state key unresolved_only) p

  enrich_row-keeps : (row : AssetRow) (r : Run) → P r.store → P (enrich_row o row r).store
  unfolding enrich_row leased
  enrich_row-keeps row r p =
      let res = o.dns_fn row.value in
      let key = key_of row.kind row.value in
      note_dangling-keeps key res.cname_chain res.resolves _
        (keeps r.store (Calls.extra key (dns_extra o res)) p)

  enrich_rows-keeps : (rows : List AssetRow) (r : Run) → P r.store → P (enrich_rows o rows r).store
  unfolding enrich_rows
  enrich_rows-keeps [] r p = p
  enrich_rows-keeps (row ∷ rows) r p = enrich_rows-keeps rows _ (enrich_row-keeps row r p)

  dns_enrich-keeps : (r : Run) → P r.store → P (dns_enrich o r).store
  unfolding dns_enrich
  dns_enrich-keeps r p = elim (Result-cases (active_preconditions_ok o.config o.today)) [
    | inl (tt, pre) ↦
        let rows = host_rows (select_assets (some in_scope) none none r.store.assets) in
        rw (dns_enrich, pre) (enrich_rows-keeps rows r p)
    | inr (why, e) ↦ rw (dns_enrich, e) p
  ]

  -- A property of stores that every call of the store keeps holds of what a run leaves, whether it
  -- returns or raises: a run changes the store by its calls alone.
  pub run-keeps : (mode : Mode) (r : Run) → P r.store → P (left (run o mode r)).store
  unfolding run
  run-keeps mode r p =
      let s =
        (record_run o.hashing r.store o.config.program.name o.scope_hash (mode_value mode)
          o.started_at).0 in
      let begun = record r { store = s } in
      let found = recon-keeps o P keeps begun (keeps r.store (Calls.run _ _ _ _) p) in
      elim (Result-cases (recon o begun)) [
        | inl (r', e) ↦ rw e (ends mode r' (subst (λ x. P (left x).store) e found))
        | inr (r', e) ↦ rw e (subst (λ x. P (left x).store) e found)
      ]
    where
      ends :
          (mode : Mode) (r' : Run)
          → P r'.store
          → P
              (left (elim mode [
                | recon_only ↦ ok r'
                | full ↦ ok (enumerate o (dns_enrich o r'))
              ])).store
      ends recon_only r' after = after
      ends full r' after = enumerate-keeps (dns_enrich o r') (dns_enrich-keeps r' after)

-- A run that starts on a store whose audit log verifies and whose assets have different identity
-- keys leaves such a store, whether it returns or raises.
pub run-IsValid :
    (o : Orchestrator) (mode : Mode) (r : Run)
    → IsValid o.hashing r.store
    → IsValid o.hashing (left (run o mode r)).store
run-IsValid o mode r v = run-keeps o (IsValid o.hashing) (step-IsValid o.hashing) mode r v
