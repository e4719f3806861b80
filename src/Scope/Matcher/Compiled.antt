-- ===== src/Scope/Matcher/Compiled.antt =====
-- What ScopeMatcher.__init__ of src/bbagent/scope/matcher.py makes of the entries of a scope.
use bugbounty_agent.Base.{
  ◌≡◌, inl, inr, String, true, false, List, [], ◌∷◌, Any, Bool-cases, ok, ◌⊎◌,
}
use bugbounty_agent.Base.Members.{set_add-Any, set_add-new}
use bugbounty_agent.Base.Results.{Ensures, >>=-Ensures, any-Ensures, Ensures-map, Ensures-all}
use bugbounty_agent.Base.Text
use bugbounty_agent.Scope.Libs.{Libs}
use bugbounty_agent.Scope.Models.{ScopeConfig}
use bugbounty_agent.Scope.Canonical.{canonical_host}
use bugbounty_agent.Scope.Matcher.{
  ScopeMatcher, from_canonical, wildcard_base, canon_set, split_subdomains, nets, compile,
}

module _ (L : Libs) (P : String → Type 0) where
  -- The canonical form of an entry has the property.
  abbrev pub Canonically : String → Type 0
  Canonically entry = (base : String) × (canonical_host L entry ≡ ok base) × P base

  canon_set-Any : (xs : List String) → Any Canonically xs → Ensures (Any P) (canon_set L xs)
  unfolding canon_set
  canon_set-Any [] m = elim m [ ]
  canon_set-Any (x ∷ xs) (inl (base, e, p)) =
      rw (e, canon_set) (any-Ensures (Any P) (canon_set L xs) _ λ rest. set_add-new P base rest p)
  canon_set-Any (x ∷ xs) (inr m) =
      any-Ensures (Any P) (from_canonical (canonical_host L x)) _ λ host.
        >>=-Ensures (Any P) (Any P) (canon_set L xs) _ (canon_set-Any xs m)
          λ rest h. set_add-Any P host rest h

module _ (L : Libs) (W E : String → Type 0) where
  -- A subdomain entry: a wildcard whose base has the one property, or a name that has the other.
  abbrev pub IsEntry : String → Type 0
  IsEntry entry =
      ((Text.starts_with entry "*." ≡ true) × Canonically L W (wildcard_base entry))
      ⊎ ((Text.starts_with entry "*." ≡ false) × Canonically L E entry)

  abbrev IsSplit : List String × List String → Type 0
  IsSplit (wild, exact) = Any W wild ⊎ Any E exact

  split_subdomains-IsSplit :
      (items : List String) → Any IsEntry items → Ensures IsSplit (split_subdomains L items)
  unfolding split_subdomains
  split_subdomains-IsSplit [] m = elim m [ ]
  split_subdomains-IsSplit (it ∷ items) (inl (inl (star, (base, e, p)))) =
      rw (star, (rw (star, wildcard_base) at e), split_subdomains)
        (any-Ensures IsSplit (split_subdomains L items) _ λ (wild, exact). inl (inl p))
  split_subdomains-IsSplit (it ∷ items) (inl (inr (plain, (base, e, p)))) =
      rw (plain, e, split_subdomains)
        (any-Ensures IsSplit (split_subdomains L items) _
          λ (wild, exact). inr (set_add-new E base exact p))
  split_subdomains-IsSplit (it ∷ items) (inr m) = elim (Bool-cases (Text.starts_with it "*.")) [
    | inl star ↦
        rw (star, split_subdomains)
          (any-Ensures IsSplit (from_canonical (canonical_host L (Text.drop 2 it))) _ λ base.
            >>=-Ensures IsSplit IsSplit (split_subdomains L items) _
              (split_subdomains-IsSplit items m)
              λ (wild, exact) h. elim h [ inl w ↦ inl (inr w) | inr x ↦ inr x ])
    | inr plain ↦
        rw (plain, split_subdomains)
          (any-Ensures IsSplit (from_canonical (canonical_host L it)) _ λ host.
            >>=-Ensures IsSplit IsSplit (split_subdomains L items) _
              (split_subdomains-IsSplit items m)
              λ (wild, exact) h. elim h [
                | inl w ↦ inl w
                | inr x ↦ inr (set_add-Any E host exact x)
              ])
  ]

module _ (L : Libs) (U W E : String → Type 0) where
  -- An entry of out_of_scope: a domain with the first property, or a subdomain entry.
  abbrev pub HasExclusion : ScopeConfig → Type 0
  HasExclusion config =
      Any (Canonically L U) config.out_of_scope.domains
      ⊎ Any (IsEntry L W E) config.out_of_scope.subdomains

  abbrev pub Excludes : ScopeMatcher → Type 0
  Excludes m = Any U m.oos_domains ⊎ Any E m.oos_exact_sub ⊎ Any W m.oos_wild

  domains-Kept :
      (config : ScopeConfig)
      → HasExclusion config
      → Ensures
          (λ ds. Any U ds ⊎ Any (IsEntry L W E) config.out_of_scope.subdomains)
          (canon_set L config.out_of_scope.domains)
  domains-Kept config (inl d) =
      Ensures-map (Any U) _ (canon_set L config.out_of_scope.domains) (λ ds h. inl h)
        (canon_set-Any L U config.out_of_scope.domains d)
  domains-Kept config (inr s) =
      Ensures-all _ (canon_set L config.out_of_scope.domains) (λ ds. inr s)

  subdomains-Kept :
      (items ds : List String)
      → Any U ds ⊎ Any (IsEntry L W E) items
      → Ensures (λ p. Any U ds ⊎ Any E p.1 ⊎ Any W p.0) (split_subdomains L items)
  subdomains-Kept items ds (inl d) = Ensures-all _ (split_subdomains L items) (λ p. inl d)
  subdomains-Kept items ds (inr s) =
      Ensures-map (IsSplit L W E) _ (split_subdomains L items)
        (λ (wild, exact) h. elim h [ inl w ↦ inr (inr w) | inr x ↦ inr (inl x) ])
        (split_subdomains-IsSplit L W E items s)

  -- Compiling keeps the exclusions of the scope.
  pub compile-Excludes :
      (config : ScopeConfig) → HasExclusion config → Ensures Excludes (compile L config)
  unfolding compile
  compile-Excludes config h =
      let out = config.out_of_scope in
      let inside = config.in_scope in
      >>=-Ensures _ Excludes (canon_set L out.domains) _ (domains-Kept config h) λ ds h1.
        >>=-Ensures _ Excludes (split_subdomains L out.subdomains) _
          (subdomains-Kept out.subdomains ds h1)
          λ (wild, exact) h2. any-Ensures Excludes (nets L out.ip_ranges) _ λ oos_nets.
            any-Ensures Excludes (canon_set L inside.domains) _ λ in_domains.
              any-Ensures Excludes (split_subdomains L inside.subdomains) _ λ (in_wild, in_exact).
                any-Ensures Excludes (nets L inside.ip_ranges) _ λ in_nets. h2
