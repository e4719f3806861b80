-- ===== src/Orchestrator/Stored.antt =====
-- What a run of src/bbagent/orchestrator/orchestrator.py does to the findings store.
use bugbounty_agent.Base.{
  ℕ, ◌≡◌, ◌⊎◌, inl, inr, refl, subst, String, none, some, List, [], ◌∷◌, Bool-cases, Option-cases,
  ◌||◌,
}
use bugbounty_agent.Base.Results.{Result-cases}
use bugbounty_agent.Base.Text
use bugbounty_agent.Scope.Models.{ScopeDecision}
use bugbounty_agent.Scope.Decide.{decide}
use bugbounty_agent.Scope.Url.{host_from_url, urlsplit}
use bugbounty_agent.Store.Models.{
  Asset, AssetKind, ScopeStatus, in_scope, out_of_scope, unverified, key_of,
}
use bugbounty_agent.Store.Findings.{
  FindingsStore, write_asset, upsert_asset, asset_exists, record_scope_decision,
}
use bugbounty_agent.Store.Findings.Calls
use bugbounty_agent.Store.Findings.Calls.{Call, perform, stepped, step-IsValid}
use bugbounty_agent.Kernel.Gate.{scope_check, scope_status_for}
use bugbounty_agent.Orchestrator.{Orchestrator, Source, Run, leased, discover, archived}
use bugbounty_agent.Orchestrator.Recon.{
  found_host, found_hosts, store_url, store_host, found_url, ingest_urls, ask_sources, ask_archives,
  visit, counted, recon, seeds, named,
}
use bugbounty_agent.Orchestrator.Contacts.{left}

status_cases : (st : ScopeStatus) → (st ≡ in_scope) ⊎ ((st ≡ out_of_scope) ⊎ (st ≡ unverified))
status_cases in_scope = inl refl
status_cases out_of_scope = inr (inl refl)
status_cases unverified = inr (inr refl)

module _ (o : Orchestrator) (P : FindingsStore → Type 0)
    (keeps : (s : FindingsStore) (c : Call)
      → P s
      → P (stepped o.hashing s (perform o.hashing s c))) where
  written :
      (s : FindingsStore) (a : Asset) (d : ℕ)
      → a.scope_decision_id ≡ some d
      → P s
      → P (write_asset o.hashing s a d).0
  unfolding upsert_asset
  written s a d e p = let h = keeps s (Calls.asset a) p in subst P (rw e refl) h

  store_host-keeps :
      (s : FindingsStore) (canon seed : String) (status : ScopeStatus) (d : ℕ) (source : String)
      → P s
      → P (store_host o s canon seed status d source)
  unfolding store_host
  store_host-keeps s canon seed status d source p =
      elim (Bool-cases (
        asset_exists s (key_of AssetKind.subdomain canon)
        || asset_exists s (key_of AssetKind.domain canon))) [
          | inl known ↦ rw (store_host, known) p
          | inr new ↦ rw (store_host, new) (written s _ d refl p)
        ]

  checked :
      (s : FindingsStore) (d : ScopeDecision) → P s → P (record_scope_decision o.hashing s d).0
  checked s d p = keeps s (Calls.scope_decision d) p

  found_host-keeps :
      (seed source host : String) (r : Run) → P r.store → P (found_host o seed source host r).store
  unfolding found_host scope_check
  found_host-keeps seed source host r p =
      let d = decide o.libs o.matcher host none in
      let (s, id) = record_scope_decision o.hashing r.store d in
      let now = checked r.store d p in
      let then' =
        store_host-keeps s (named d.canonical_host host) seed (scope_status_for d) id source now in
      elim (status_cases (scope_status_for d)) [
        | inl e ↦ rw (found_host, e) then'
        | inr (inl e) ↦ rw (found_host, e) then'
        | inr (inr e) ↦ rw (found_host, e) now
      ]

  found_hosts-keeps :
      (seed source : String) (hosts : List String) (r : Run)
      → P r.store
      → P (found_hosts o seed source hosts r).store
  unfolding found_hosts
  found_hosts-keeps seed source [] r p = p
  found_hosts-keeps seed source (host ∷ hosts) r p =
      found_hosts-keeps seed source hosts (found_host o seed source host r)
        (found_host-keeps seed source host r p)

  found_url-keeps :
      (seed source url : String) (r : Run)
      → P r.store
      → P (left (found_url o seed source url r)).store
  unfolding found_url scope_check store_url
  found_url-keeps seed source url r p = elim (Result-cases (host_from_url o.libs url)) [
    | inr (e, bad) ↦ rw (found_url, bad) p
    | inl (host, good) ↦
        let d = decide o.libs o.matcher host none in
        let (s, id) = record_scope_decision o.hashing r.store d in
        let now = checked r.store d p in
        let then' = store_host-keeps s host seed (scope_status_for d) id source now in
        elim (status_cases (scope_status_for d)) [
          | inr (inl e) ↦ rw (found_url, good, e) then'
          | inr (inr e) ↦ rw (found_url, good, e) now
          | inl e ↦
              let s' = store_host o s host seed (scope_status_for d) id source in
              elim (Option-cases (urlsplit o.libs url)) [
                | inl bad ↦ rw (found_url, good, e, store_url, bad) then'
                | inr (parts, split) ↦
                    elim (Bool-cases (asset_exists s' (key_of AssetKind.url (Text.take 500 url)))) [
                      | inl known ↦ rw (found_url, good, e, store_url, split, known) then'
                      | inr new ↦
                          rw (found_url, good, e, store_url, split, new)
                            (written s' _ id refl then')
                    ]
              ]
        ]
  ]

  ingest_urls-keeps :
      (seed source : String) (urls : List String) (r : Run)
      → P r.store
      → P (left (ingest_urls o seed source urls r)).store
  unfolding ingest_urls
  ingest_urls-keeps seed source [] r p = p
  ingest_urls-keeps seed source (url ∷ urls) r p =
      let now = found_url-keeps seed source url r p in
      elim (Result-cases (found_url o seed source url r)) [
        | inl (r', e) ↦
            rw e (ingest_urls-keeps seed source urls r' (subst (λ x. P (left x).store) e now))
        | inr (r', e) ↦ rw e (subst (λ x. P (left x).store) e now)
      ]

  ask_sources-keeps :
      (seed : String) (sources : List Source) (r : Run)
      → P r.store
      → P (ask_sources o seed sources r).store
  unfolding ask_sources leased
  ask_sources-keeps seed [] r p = p
  ask_sources-keeps seed (source ∷ sources) r p = ask_sources-keeps seed sources _ (
      found_hosts-keeps seed source.name (source.find seed) (leased o (discover source.name seed) r)
        p)

  ask_archives-keeps :
      (seed : String) (sources : List Source) (r : Run)
      → P r.store
      → P (left (ask_archives o seed sources r)).store
  unfolding ask_archives leased
  ask_archives-keeps seed [] r p = p
  ask_archives-keeps seed (source ∷ sources) r p =
      let asked = leased o (archived source.name seed) r in
      let now = ingest_urls-keeps seed source.name (source.find seed) asked p in
      elim (Result-cases (ingest_urls o seed source.name (source.find seed) asked)) [
        | inl (r', e) ↦
            rw e (ask_archives-keeps seed sources r' (subst (λ x. P (left x).store) e now))
        | inr (r', e) ↦ rw e (subst (λ x. P (left x).store) e now)
      ]

  visit-keeps : (names : List String) (r : Run) → P r.store → P (left (visit o names r)).store
  unfolding visit
  visit-keeps [] r p = p
  visit-keeps (seed ∷ names) r p =
      let found = ask_sources o seed o.passive_sources r in
      let now =
        ask_archives-keeps seed o.url_sources found
          (ask_sources-keeps seed o.passive_sources r p) in
      elim (Result-cases (ask_archives o seed o.url_sources found)) [
        | inl (r', e) ↦ rw e (visit-keeps names r' (subst (λ x. P (left x).store) e now))
        | inr (r', e) ↦ rw e (subst (λ x. P (left x).store) e now)
      ]

  pub recon-keeps : (r : Run) → P r.store → P (left (recon o r)).store
  unfolding recon counted
  recon-keeps r p =
      let now = visit-keeps (seeds o) r p in
      elim (Result-cases (visit o (seeds o) r)) [
        | inl (r', e) ↦ rw e (subst (λ x. P (left x).store) e now)
        | inr (r', e) ↦ rw e (subst (λ x. P (left x).store) e now)
      ]
