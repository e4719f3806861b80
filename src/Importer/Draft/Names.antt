-- ===== src/Importer/Draft/Names.antt =====
-- Where the names of a draft of src/bbagent/importer/core.py come from.
use bugbounty_agent.Base.{
  ◌≡◌, ◌≢◌, refl, ◌⊎◌, inl, inr, String, Bool, true, false, not, ◌||◌, ◌==◌, eq_iff, All,
  set_add-All, Bool-cases, if◌then◌else◌, ok, arith,
}
use bugbounty_agent.Base.Text.{◌<>◌}
use bugbounty_agent.Scope.Canonical.{canonical_host}
use bugbounty_agent.Importer.Values.{Importing}
use bugbounty_agent.Importer.Draft.{ScopeDraft, add_host, denylisted, add_canonical, add_ip}
use bugbounty_agent.Importer.Draft.Entries.{IsKept}

module _ (I : Importing) where
  -- The canonical form of a host whose registrable domain may be imported.
  pub record IsHost (canon : String) : Type 0 where
    pub host : String
    pub is_canonical : canonical_host I.libs host ≡ ok canon
    pub has_domain : I.libs.registered_domain canon ≢ ""
    pub passes : denylisted (I.libs.registered_domain canon) ≡ false

  -- an entry of domains: a registrable domain
  abbrev pub IsApex : String → Type 0
  IsApex s = IsHost s × (I.libs.registered_domain s ≡ s)

  -- an entry of subdomains: a host below its registrable domain, or a wildcard
  abbrev pub IsBelow : String → Type 0
  IsBelow s =
      (IsHost s × (I.libs.registered_domain s ≢ s))
      ⊎ ((base : String) × IsHost base × (s ≡ "*." <> base))

  abbrev pub HasHosts : ScopeDraft → Type 0
  HasHosts d =
      All IsApex d.in_domains
      × All IsBelow d.in_subdomains
      × All IsApex d.out_domains
      × All IsBelow d.out_subdomains

  ip-HasHosts : (b : Bool) (net : String) (d : ScopeDraft) → HasHosts d → HasHosts (add_ip b net d)
  unfolding add_ip
  ip-HasHosts true net d h = h
  ip-HasHosts false net d h = h

  apex-HasHosts :
      (b : Bool) (s : String) (d : ScopeDraft)
      → IsApex s
      → HasHosts d
      → HasHosts (add_host b false s d)
  unfolding add_host
  apex-HasHosts true s d p h = (set_add-All IsApex s d.in_domains p h.0, h.1, h.2, h.3)
  apex-HasHosts false s d p h = (h.0, h.1, set_add-All IsApex s d.out_domains p h.2, h.3)

  below-HasHosts :
      (b : Bool) (s : String) (d : ScopeDraft)
      → IsBelow s
      → HasHosts d
      → HasHosts (add_host b true s d)
  unfolding add_host
  below-HasHosts true s d p h = (h.0, set_add-All IsBelow s d.in_subdomains p h.1, h.2, h.3)
  below-HasHosts false s d p h = (h.0, h.1, h.2, set_add-All IsBelow s d.out_subdomains p h.3)

  host-HasHosts :
      (b w : Bool) (canon : String) (d : ScopeDraft)
      → IsHost canon
      → HasHosts d
      → HasHosts (
          add_host b
            (w || not (I.libs.registered_domain canon == canon))
            (if w then "*." <> canon else canon)
            d)
  host-HasHosts b true canon d p h = below-HasHosts b _ d (inr (canon, p, refl)) h
  host-HasHosts b false canon d p h = elim (Bool-cases (I.libs.registered_domain canon == canon)) [
    | inl e ↦
        rw e (apex-HasHosts b canon d (p, (eq_iff (I.libs.registered_domain canon) canon).0 e) h)
    | inr e ↦ rw e (
        below-HasHosts b canon d
          (inl (p, (ground (arith, eq_iff (I.libs.registered_domain canon) canon)))) h)
  ]

  canonical-HasHosts :
      (identifier host canon : String) (b w : Bool) (d : ScopeDraft)
      → canonical_host I.libs host ≡ ok canon
      → HasHosts d
      → HasHosts (add_canonical I identifier b w canon d)
  unfolding add_canonical
  canonical-HasHosts identifier host canon b w d e h =
      let reg = I.libs.registered_domain canon in
      elim (Bool-cases (reg == "")) [
        | inl r ↦ rw (r, add_canonical) h
        | inr r ↦ elim (Bool-cases (denylisted reg)) [
          | inl l ↦ rw (r, l, add_canonical) h
          | inr l ↦
              rw (r, l, add_canonical)
                (host-HasHosts b w canon d
                  (record {
                    host = host;
                    is_canonical = e;
                    has_domain = ground (arith, eq_iff reg "");
                    passes = l;
                  })
                  h)
        ]
      ]

  -- Every name of a draft is the canonical form of a host, behind a wildcard or not, and no parser
  -- puts another in.
  pub HasHosts-kept : IsKept I HasHosts
  HasHosts-kept = record {
    empty_kept = (tt, tt, tt, tt);
    notes_kept = λ ns d h. h;
    added = record {
      warn_added = λ w d h. h;
      ip_added = ip-HasHosts;
      canonical_added = canonical-HasHosts;
    };
  }
