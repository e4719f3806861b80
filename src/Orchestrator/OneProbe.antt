-- ===== src/Orchestrator/OneProbe.antt =====
-- How often src/bbagent/orchestrator/orchestrator.py probes one host.
use bugbounty_agent.Base.{
  ℕ, ◌+◌, ◌≤◌, ◌≡◌, ◌||◌, inl, inr, String, Bool, true, false, some, none, List, [], ◌∷◌, ◌++◌,
  ◌==◌, contains, Bool-cases, arith, eq_iff, if◌then◌else◌,
}
use bugbounty_agent.Base.Results.{Result-cases}
use bugbounty_agent.Scope.Models.{allowed}
use bugbounty_agent.Scope.Decide.{decide}
use bugbounty_agent.Store.Findings.{AssetRow, select_assets}
use bugbounty_agent.Store.Models.{in_scope}
use bugbounty_agent.Kernel.Approval.{ApprovalRequest, ApprovalGrant, approve, fp}
use bugbounty_agent.Kernel.Gate.{active_preconditions_ok, scope_check}
use bugbounty_agent.Orchestrator.{
  Orchestrator, Run, Contact, leased, discover, archived, dns, resolve, probe, say, not_approved,
}
use bugbounty_agent.Orchestrator.Active.{
  request_for, approved_host, probed, enumerate_rows, enumerate, host_rows, auth_headers,
}
use bugbounty_agent.Orchestrator.Lawful.{list_cases}

abbrev is_probe : String → Contact → ℕ
is_probe h (discover name seed) = 0
is_probe h (archived name seed) = 0
is_probe h (dns host) = 0
is_probe h (resolve host) = 0
is_probe h (probe host addr headers) = if host == h then 1 else 0

-- how many probes of a trace go to a host
abbrev pub probes : String → List Contact → ℕ
probes h [] = 0
probes h (c ∷ cs) = is_probe h c + probes h cs

probes-append :
    (h : String) (cs ds : List Contact) → probes h (cs ++ ds) ≡ probes h cs + probes h ds
probes-append h [] ds = omega arith
probes-append h (c ∷ cs) ds = omega (arith, probes-append h cs ds)

abbrev left_to : Bool → ℕ
left_to true = 0
left_to false = 1

module _ (o : Orchestrator) (h : String) where
  approved_host-probes :
      (row : AssetRow) (r : Run)
      → probes h (approved_host o row r).trace
        ≤ probes h r.trace + (if row.value == h then 1 else 0)
  unfolding approved_host scope_check probed leased
  approved_host-probes row r =
      let before = probes-append h r.trace (resolve row.value ∷ []) in
      elim (list_cases (o.resolve_fn row.value)) [
        | inl e ↦ rw (approved_host, e) (omega (arith, before))
        | inr (addr, addrs, e) ↦
            let d = decide o.libs o.matcher row.value (some (addr ∷ addrs)) in
            let after =
              probes-append h (r.trace ++ resolve row.value ∷ [])
                (probe row.value addr (auth_headers o) ∷ []) in
            elim (Bool-cases (allowed d)) [
              | inl passed ↦ rw (approved_host, e, passed) (omega (arith, before, after))
              | inr refused ↦ rw (approved_host, e, refused) (omega (arith, before))
            ]
      ]

  burns :
      (burned : List String) (q : ApprovalRequest) (g : ApprovalGrant)
      → (approve o.digest burned q g).0 ≡ true
      → (contains burned (fp o.digest q) ≡ false)
        × ((approve o.digest burned q g).1 ≡ fp o.digest q ∷ burned)
  unfolding approve
  burns burned q g e = ground arith

  keeps_burned :
      (burned : List String) (q : ApprovalRequest) (g : ApprovalGrant)
      → (approve o.digest burned q g).0 ≡ false
      → (approve o.digest burned q g).1 ≡ burned
  unfolding approve
  keeps_burned burned q g e = ground arith

  abbrev spent : List String → Bool
  spent burned = contains burned (fp o.digest (request_for o h))

  -- what is left for the host after a row's request is burned
  left_to-cons :
      (v : String) (burned : List String)
      → contains burned (fp o.digest (request_for o v)) ≡ false
      → (if v == h then 1 else 0) + left_to (spent (fp o.digest (request_for o v) ∷ burned))
        ≤ left_to (spent burned)
  unfolding contains
  left_to-cons v burned fresh =
      ground
        (arith, eq_iff v h, eq_iff (fp o.digest (request_for o v)) (fp o.digest (request_for o h)))

  enumerate_rows-probes :
      (rows : List AssetRow) (r : Run) (burned : List String) (any : Bool)
      → probes h (enumerate_rows o rows r burned any).0.trace
        ≤ probes h r.trace + left_to (spent burned)
  unfolding enumerate_rows
  enumerate_rows-probes [] r burned any = omega arith
  enumerate_rows-probes (row ∷ rows) r burned any =
      let q = request_for o row.value in
      elim (Bool-cases (approve o.digest burned q (o.review q)).0) [
        | inl granted ↦
            let (fresh, e) = burns burned q (o.review q) granted in
            rw (enumerate_rows, granted, e)
              (omega (
                arith,
                enumerate_rows-probes rows (approved_host o row r) (fp o.digest q ∷ burned)
                    (any || true),
                approved_host-probes row r,
                left_to-cons row.value burned fresh,
              ))
        | inr refused ↦
            let e = keeps_burned burned q (o.review q) refused in
            rw (enumerate_rows, refused, e)
              (enumerate_rows-probes rows (say (not_approved row.value) r) burned (any || false))
      ]

  -- Whatever the rows of the store and whatever the reviewer answers, an enumeration adds at most
  -- one probe of a host to the trace.
  pub enumerate-probes : (r : Run) → probes h (enumerate o r).trace ≤ probes h r.trace + 1
  unfolding enumerate contains
  enumerate-probes r = elim (Result-cases (active_preconditions_ok o.config o.today)) [
    | inl (tt, pre) ↦
        let rows = host_rows (select_assets (some in_scope) (some "new") none r.store.assets) in
        let ended = enumerate_rows-probes rows r [] false in
        elim (Bool-cases (enumerate_rows o rows r [] false).1) [
          | inl any ↦ rw (enumerate, pre, any) ended
          | inr none_approved ↦ rw (enumerate, pre, none_approved) ended
        ]
    | inr (why, e) ↦ rw (enumerate, e) (omega arith)
  ]
