-- ===== src/Importer/Draft/Entries.antt =====
-- What ScopeDraft.add of src/bbagent/importer/core.py puts in a draft, and the predicates that all of
-- the parsers keep.
use bugbounty_agent.Base.{
  ◌≡◌, inl, inr, String, Bool, ◌||◌, List, ◌==◌, Bool-cases, Option-cases, ok,
}
use bugbounty_agent.Base.Results.{Result-cases, Ensures, any-Ensures, if-Ensures}
use bugbounty_agent.Base.Text
use bugbounty_agent.Base.Text.{◌<>◌}
use bugbounty_agent.Scope.Canonical.{is_space, canonical_host}
use bugbounty_agent.Scope.Matcher.{wildcard_base}
use bugbounty_agent.Importer.Values.{Importing}
use bugbounty_agent.Importer.Draft.{
  ScopeDraft, empty, warn, add_canonical, add_named, add_network, add_ip, add, asset_host,
  looks_like_ip, looks_like_cidr,
}

-- A predicate on drafts that ScopeDraft.add keeps.
pub record IsAdded (I : Importing) (P : ScopeDraft → Type 0) : Type 0 where
  pub warn_added : (w : String) (d : ScopeDraft) → P d → P (warn w d)
  pub ip_added : (b : Bool) (net : String) (d : ScopeDraft) → P d → P (add_ip b net d)
  pub canonical_added :
      (identifier host canon : String) (b w : Bool) (d : ScopeDraft)
      → canonical_host I.libs host ≡ ok canon
      → P d
      → P (add_canonical I identifier b w canon d)

-- A predicate on drafts that every operation of the parsers keeps.
pub record IsKept (I : Importing) (P : ScopeDraft → Type 0) : Type 0 where
  pub empty_kept : P empty
  pub notes_kept : (ns : List String) (d : ScopeDraft) → P d → P (record d { notes = ns })
  pub added : IsAdded I P

module _ (I : Importing) (P : ScopeDraft → Type 0) (added : IsAdded I P) where
  add_network-kept :
      (identifier : String) (b : Bool) (d : ScopeDraft) → P d → P (add_network I identifier b d)
  unfolding add_network
  add_network-kept identifier b d p = elim (Option-cases (I.libs.ip_network identifier)) [
    | inl e ↦ rw (e, add_network) (added.warn_added _ d p)
    | inr (net, e) ↦ rw (e, add_network) (added.ip_added b (I.libs.str_net net) d p)
  ]

  add_named-kept :
      (identifier : String) (b : Bool) (host : String) (d : ScopeDraft)
      → P d
      → P (add_named I identifier b host d)
  unfolding add_named
  add_named-kept identifier b host d p = elim (Bool-cases (host == "")) [
    | inl e ↦ rw e (added.warn_added _ d p)
    | inr ne ↦ rw ne (elim (Result-cases (canonical_host I.libs (wildcard_base host))) [
      | inl (canon, e) ↦ rw e (added.canonical_added identifier _ canon b _ d e p)
      | inr (error, e) ↦ rw e (added.warn_added _ d p)
    ])
  ]

  -- ScopeDraft.add keeps every such predicate.
  pub add-kept : (given : String) (b : Bool) (d : ScopeDraft) → P d → Ensures P (add I given b d)
  unfolding add
  add-kept given b d p =
      let s = Text.strip (is_space I.libs) given in
      if-Ensures P (s == "") _ _ p (
        if-Ensures P (looks_like_cidr I s || looks_like_ip I s) _ _ (add_network-kept s b d p)
          (any-Ensures P (asset_host I s) _ λ host. add_named-kept s b host d p))
