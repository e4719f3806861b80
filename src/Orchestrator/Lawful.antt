-- ===== src/Orchestrator/Lawful.antt =====
-- What stands behind each contact of src/bbagent/orchestrator/orchestrator.py with a target.
use bugbounty_agent.Base.{
  ◌≡◌, ◌⊎◌, refl, subst, inl, inr, String, Bool, true, false, some, none, List, [], ◌∷◌, All,
  All-append, Bool-cases, arith, ok, err,
}
use bugbounty_agent.Base.Results.{Result-cases}
use bugbounty_agent.Scope.Models.{ScopeDecision, allowed, allow}
use bugbounty_agent.Scope.Decide.{decide}
use bugbounty_agent.Store.Findings.{AssetRow, record_run, select_assets}
use bugbounty_agent.Store.Models.{in_scope}
use bugbounty_agent.Kernel.Approval.{ApprovalRequest, ApprovalGrant, approve}
use bugbounty_agent.Kernel.Gate.{Precondition, active_preconditions_ok, scope_check}
use bugbounty_agent.Orchestrator.{
  Orchestrator, Run, Contact, contact, leased, discover, archived, dns, resolve, probe,
}
use bugbounty_agent.Orchestrator.Recon.{recon}
use bugbounty_agent.Orchestrator.Active.{
  request_for, approved_host, probed, enumerate_rows, enumerate, enrich_row, enrich_rows,
  dns_enrich, auth_headers, host_rows,
}
use bugbounty_agent.Orchestrator.Runs.{Mode, recon_only, full, mode_value, run}
use bugbounty_agent.Orchestrator.Contacts.{left, Holds-recon}

-- Passive sources are free to ask. DNS enrichment needs an authorized, fresh scope that permits
-- active actions; a resolution needs a grant for its host too; and a probe, besides, goes to the
-- first address that the host resolves to, the scope allows the host on all those addresses, and
-- the headers are the profile's.
abbrev pub IsLawful : Orchestrator → Contact → Type 0
IsLawful o (discover name seed) = Unit
IsLawful o (archived name seed) = Unit
IsLawful o (dns host) = active_preconditions_ok o.config o.today ≡ ok tt
IsLawful o (resolve host) =
    (active_preconditions_ok o.config o.today ≡ ok tt)
    × ((o.review (request_for o host)).granted ≡ true)
IsLawful o (probe host addr headers) =
    (active_preconditions_ok o.config o.today ≡ ok tt)
    × ((o.review (request_for o host)).granted ≡ true)
    × ((addrs : List String) × (o.resolve_fn host ≡ addr ∷ addrs)
        × ((decide o.libs o.matcher host (some (addr ∷ addrs))).verdict ≡ allow))
    × (headers ≡ auth_headers o)

-- A contact with a source of public records, and none with the target.
abbrev pub IsPassive : Contact → Type 0
IsPassive (discover name seed) = Unit
IsPassive (archived name seed) = Unit
IsPassive (dns host) = ⊥
IsPassive (resolve host) = ⊥
IsPassive (probe host addr headers) = ⊥

pub list_cases :
    (xs : List String) → (xs ≡ []) ⊎ ((x : String) × (ys : List String) × (xs ≡ x ∷ ys))
list_cases [] = inl refl
list_cases (x ∷ ys) = inr (x, ys, refl)

module _ (o : Orchestrator) where
  abbrev AreLawful : Run → Type 0
  AreLawful r = All (IsLawful o) r.trace

  allowed-allow : (d : ScopeDecision) → allowed d ≡ true → d.verdict ≡ allow
  unfolding allowed
  allowed-allow d e = ground arith

  approve-granted :
      (burned : List String) (q : ApprovalRequest) (g : ApprovalGrant)
      → (approve o.digest burned q g).0 ≡ true
      → g.granted ≡ true
  unfolding approve
  approve-granted burned q g e = ground arith

  approved_host-AreLawful :
      (row : AssetRow) (r : Run)
      → active_preconditions_ok o.config o.today ≡ ok tt
      → (o.review (request_for o row.value)).granted ≡ true
      → AreLawful r
      → AreLawful (approved_host o row r)
  unfolding approved_host scope_check probed leased
  approved_host-AreLawful row r pre granted h =
      let r' = contact (resolve row.value) r in
      let resolved : AreLawful r' =
        All-append (IsLawful o) r.trace (resolve row.value ∷ []) h ((pre, granted), tt) in
      elim (list_cases (o.resolve_fn row.value)) [
        | inl e ↦ rw (approved_host, e) resolved
        | inr (addr, addrs, e) ↦
            let d = decide o.libs o.matcher row.value (some (addr ∷ addrs)) in
            elim (Bool-cases (allowed d)) [
              | inl gave ↦
                  rw (approved_host, e, gave)
                    (All-append (IsLawful o) r'.trace (probe row.value addr (auth_headers o) ∷ [])
                      resolved ((pre, granted, (addrs, e, allowed-allow d gave), refl), tt))
              | inr refused ↦ rw (approved_host, e, refused) resolved
            ]
      ]

  enumerate_rows-AreLawful :
      (rows : List AssetRow) (r : Run) (burned : List String) (any : Bool)
      → active_preconditions_ok o.config o.today ≡ ok tt
      → AreLawful r
      → AreLawful (enumerate_rows o rows r burned any).0
  unfolding enumerate_rows
  enumerate_rows-AreLawful [] r burned any pre h = h
  enumerate_rows-AreLawful (row ∷ rows) r burned any pre h =
      let request = request_for o row.value in
      let answer = approve o.digest burned request (o.review request) in
      elim (Bool-cases answer.0) [
        | inl gave ↦
            rw (enumerate_rows, gave)
              (enumerate_rows-AreLawful rows (approved_host o row r) answer.1 _ pre (
                approved_host-AreLawful row r pre
                  (approve-granted burned request (o.review request) gave) h))
        | inr refused ↦
            rw (enumerate_rows, refused) (enumerate_rows-AreLawful rows _ answer.1 _ pre h)
      ]

  preconditions-cases :
      (active_preconditions_ok o.config o.today ≡ ok tt)
      ⊎ ((e : Precondition) × (active_preconditions_ok o.config o.today ≡ err e))
  preconditions-cases = elim (Result-cases (active_preconditions_ok o.config o.today)) [
    | inl (tt, e) ↦ inl e
    | inr (why, e) ↦ inr (why, e)
  ]

  -- Whatever assets the store holds, enumeration only adds lawful contacts.
  pub enumerate-AreLawful : (r : Run) → AreLawful r → AreLawful (enumerate o r)
  unfolding enumerate
  enumerate-AreLawful r h = elim preconditions-cases [
    | inl pre ↦
        let rows = host_rows (select_assets (some in_scope) (some "new") none r.store.assets) in
        let ended = enumerate_rows-AreLawful rows r [] false pre h in
        elim (Bool-cases (enumerate_rows o rows r [] false).1) [
          | inl any ↦ rw (enumerate, pre, any) ended
          | inr none_approved ↦ rw (enumerate, pre, none_approved) ended
        ]
    | inr (why, e) ↦ rw (enumerate, e) h
  ]

  enrich_rows-AreLawful :
      (rows : List AssetRow) (r : Run)
      → active_preconditions_ok o.config o.today ≡ ok tt
      → AreLawful r
      → AreLawful (enrich_rows o rows r)
  unfolding enrich_rows enrich_row leased
  enrich_rows-AreLawful [] r pre h = h
  enrich_rows-AreLawful (row ∷ rows) r pre h =
      enrich_rows-AreLawful rows (enrich_row o row r) pre
        (All-append (IsLawful o) r.trace (dns row.value ∷ []) h (pre, tt))

  dns_enrich-AreLawful : (r : Run) → AreLawful r → AreLawful (dns_enrich o r)
  unfolding dns_enrich
  dns_enrich-AreLawful r h = elim preconditions-cases [
    | inl pre ↦
        rw (dns_enrich, pre)
          (enrich_rows-AreLawful
            (host_rows (select_assets (some in_scope) none none r.store.assets)) r pre h)
    | inr (why, e) ↦ rw (dns_enrich, e) h
  ]

  -- A run adds lawful contacts alone, whatever the sources, the resolvers, the reviewer and the probe
  -- answer and whatever the store holds at the start: if all contacts before it are lawful, all that
  -- the run leaves are, whether it returns or raises. A DNS lookup of the enrichment is lawful on an
  -- authorized, fresh scope that permits active actions, and needs no grant; the resolution before a
  -- probe needs the reviewer's grant for its host too; a probe needs, besides, that the scope allows
  -- its host on all the addresses it resolves to, goes to the first of these, and sends the profile's
  -- headers.
  pub run-AreLawful : (mode : Mode) (r : Run) → AreLawful r → AreLawful (left (run o mode r))
  unfolding run
  run-AreLawful mode r h =
      let s =
        (record_run o.hashing r.store o.config.program.name o.scope_hash (mode_value mode)
          o.started_at).0 in
      let begun = record r { store = s } in
      let found = Holds-recon o (IsLawful o) (λ name seed. (tt, tt)) begun h in
      elim (Result-cases (recon o begun)) [
        | inl (r', e) ↦
            let after : AreLawful r' = subst (λ x. AreLawful (left x)) e found in
            rw e (ends mode r' after)
        | inr (r', e) ↦ rw e (subst (λ x. AreLawful (left x)) e found)
      ]
    where
      ends :
          (mode : Mode) (r' : Run)
          → AreLawful r'
          → AreLawful
              (left (elim mode [ recon_only ↦ ok r' | full ↦ ok (enumerate o (dns_enrich o r')) ]))
      ends recon_only r' after = after
      ends full r' after = enumerate-AreLawful (dns_enrich o r') (dns_enrich-AreLawful r' after)

  -- A run in the mode recon adds no contact with the target: if the contacts before it are with
  -- sources of public records alone, so are those that it leaves, whether it returns or raises.
  pub run-IsPassive :
      (r : Run) → All IsPassive r.trace → All IsPassive (left (run o recon_only r)).trace
  unfolding run
  run-IsPassive r h =
      let s =
        (record_run o.hashing r.store o.config.program.name o.scope_hash "recon" o.started_at).0 in
      let begun = record r { store = s } in
      let found = Holds-recon o IsPassive (λ name seed. (tt, tt)) begun h in
      elim (Result-cases (recon o begun)) [
        | inl (r', e) ↦ rw e (subst (λ x. All IsPassive (left x).trace) e found)
        | inr (r', e) ↦ rw e (subst (λ x. All IsPassive (left x).trace) e found)
      ]
