-- ===== src/Orchestrator/Contacts.antt =====
-- The contacts that the phases of the orchestrator make.
use bugbounty_agent.Base.{
  ◌≡◌, subst, inl, inr, refl, String, List, [], ◌∷◌, All, All-append, arith, Result, ok, err,
}
use bugbounty_agent.Base.Results.{Result-cases}
use bugbounty_agent.Kernel.Gate.{scope_check}
use bugbounty_agent.Orchestrator.{Orchestrator, Source, Run, Contact, leased, discover, archived}
use bugbounty_agent.Orchestrator.Recon.{
  found_host, found_hosts, found_url, ingest_urls, ask_sources, ask_archives, visit, counted, recon,
  seeds,
}

-- what a run has made when it returns or raises
abbrev pub left : Result Run Run → Run
left (ok r) = r
left (err r) = r

module _ (o : Orchestrator) (P : Contact → Type 0) where
  abbrev Holds : Run → Type 0
  Holds r = All P r.trace

  Holds-leased : (c : Contact) (r : Run) → P c → Holds r → Holds (leased o c r)
  unfolding leased
  Holds-leased c r p h = All-append P r.trace (c ∷ []) h (p, tt)

  found_host-trace :
      (seed source host : String) (r : Run) → (found_host o seed source host r).trace ≡ r.trace
  unfolding found_host scope_check
  found_host-trace seed source host r = ground arith

  found_hosts-trace :
      (seed source : String) (hosts : List String) (r : Run)
      → (found_hosts o seed source hosts r).trace ≡ r.trace
  unfolding found_hosts
  found_hosts-trace seed source [] r = refl
  found_hosts-trace seed source (host ∷ hosts) r = cc (
    found_hosts-trace seed source hosts (found_host o seed source host r),
    found_host-trace seed source host r,
  )

  found_url-trace :
      (seed source url : String) (r : Run) → (left (found_url o seed source url r)).trace ≡ r.trace
  unfolding found_url scope_check
  found_url-trace seed source url r = ground arith

  ingest_urls-trace :
      (seed source : String) (urls : List String) (r : Run)
      → (left (ingest_urls o seed source urls r)).trace ≡ r.trace
  unfolding ingest_urls
  ingest_urls-trace seed source [] r = refl
  ingest_urls-trace seed source (url ∷ urls) r =
      elim (Result-cases (found_url o seed source url r)) [
        | inl (r', e) ↦
            rw e (cc (ingest_urls-trace seed source urls r', found_url-trace seed source url r, e))
        | inr (r', e) ↦ rw e (cc (found_url-trace seed source url r, e))
      ]

  module _ (free : (name seed : String) → P (discover name seed) × P (archived name seed)) where
    Holds-ask_sources :
        (seed : String) (sources : List Source) (r : Run)
        → Holds r
        → Holds (ask_sources o seed sources r)
    unfolding ask_sources
    Holds-ask_sources seed [] r h = h
    Holds-ask_sources seed (source ∷ sources) r h =
        let asked = leased o (discover source.name seed) r in
        Holds-ask_sources seed sources (found_hosts o seed source.name (source.find seed) asked) (
          rw (found_hosts-trace seed source.name (source.find seed) asked)
            (Holds-leased (discover source.name seed) r (free source.name seed).0 h))

    Holds-ask_archives :
        (seed : String) (sources : List Source) (r : Run)
        → Holds r
        → Holds (left (ask_archives o seed sources r))
    unfolding ask_archives
    Holds-ask_archives seed [] r h = h
    Holds-ask_archives seed (source ∷ sources) r h =
        let asked = leased o (archived source.name seed) r in
        let now : Holds (left (ingest_urls o seed source.name (source.find seed) asked)) =
          rw (ingest_urls-trace seed source.name (source.find seed) asked)
            (Holds-leased (archived source.name seed) r (free source.name seed).1 h) in
        elim (Result-cases (ingest_urls o seed source.name (source.find seed) asked)) [
          | inl (r', e) ↦
              rw e (Holds-ask_archives seed sources r' (subst (λ x. Holds (left x)) e now))
          | inr (r', e) ↦ rw e (subst (λ x. Holds (left x)) e now)
        ]

    Holds-visit : (names : List String) (r : Run) → Holds r → Holds (left (visit o names r))
    unfolding visit
    Holds-visit [] r h = h
    Holds-visit (seed ∷ names) r h =
        let found = ask_sources o seed o.passive_sources r in
        let now : Holds (left (ask_archives o seed o.url_sources found)) =
          Holds-ask_archives seed o.url_sources found
            (Holds-ask_sources seed o.passive_sources r h) in
        elim (Result-cases (ask_archives o seed o.url_sources found)) [
          | inl (r', e) ↦ rw e (Holds-visit names r' (subst (λ x. Holds (left x)) e now))
          | inr (r', e) ↦ rw e (subst (λ x. Holds (left x)) e now)
        ]

    pub Holds-recon : (r : Run) → Holds r → Holds (left (recon o r))
    unfolding recon counted
    Holds-recon r h =
        let now : Holds (left (visit o (seeds o) r)) = Holds-visit (seeds o) r h in
        elim (Result-cases (visit o (seeds o) r)) [
          | inl (r', e) ↦ rw e (subst (λ x. Holds (left x)) e now)
          | inr (r', e) ↦ rw e (subst (λ x. Holds (left x)) e now)
        ]
