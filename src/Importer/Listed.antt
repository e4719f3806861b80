-- ===== src/Importer/Listed.antt =====
-- Lines of a plain text scope that src/bbagent/importer/core.py keeps: each host that it accepts stands
-- in the scope that is built.
use bugbounty_agent.Base.{
  ℕ, ◌≡◌, sym, subst, ◌⊎◌, inl, inr, String, Bool, true, false, not, ◌||◌, Option, List, [], ◌∷◌,
  ◌==◌, Any, Bool-cases, if◌then◌else◌, ok,
}
use bugbounty_agent.Base.Results.{Ensures, Ensures-ok, >>=-Ensures, any-Ensures, expect, guard}
use bugbounty_agent.Base.Members.{set_add-Any, set_add-member}
use bugbounty_agent.Base.Sorted.{sorted-Any}
use bugbounty_agent.Base.Text
use bugbounty_agent.Base.Text.{◌<>◌}
use bugbounty_agent.Scope.Models.{ScopeConfig, Platform}
use bugbounty_agent.Scope.Canonical.{is_space, canonical_host}
use bugbounty_agent.Scope.Matcher.{wildcard_base}
use bugbounty_agent.Importer.Values.{Importing, empty_scope, validation_error, no_targets}
use bugbounty_agent.Importer.Draft.{
  ScopeDraft, empty, warn, add_host, add_ip, denylisted, add_canonical, add_named, add, asset_host,
  looks_like_ip, looks_like_cidr, is_empty, drafted, Meta, to_scope_config, platform_named,
  optional_text, optional_date,
}
use bugbounty_agent.Importer.Draft.Entries.{IsAdded}
use bugbounty_agent.Importer.Kept.{add_line-kept}
use bugbounty_agent.Importer.Platforms.{add_line, add_lines, parse_plaintext}

-- A name is among the domains or the subdomains of a side of a draft.
abbrev pub IsListed : Bool → String → ScopeDraft → Type 0
IsListed true canon d = Any (λ x. x ≡ canon) d.in_domains ⊎ Any (λ x. x ≡ canon) d.in_subdomains
IsListed false canon d = Any (λ x. x ≡ canon) d.out_domains ⊎ Any (λ x. x ≡ canon) d.out_subdomains

-- It is so in a configuration.
abbrev pub IsInScope : Bool → String → ScopeConfig → Type 0
IsInScope true canon c =
    Any (λ x. x ≡ canon) c.in_scope.domains ⊎ Any (λ x. x ≡ canon) c.in_scope.subdomains
IsInScope false canon c =
    Any (λ x. x ≡ canon) c.out_of_scope.domains ⊎ Any (λ x. x ≡ canon) c.out_of_scope.subdomains

host-IsListed :
    (b c w : Bool) (canon s : String) (d : ScopeDraft)
    → IsListed b canon d
    → IsListed b canon (add_host c w s d)
unfolding add_host
host-IsListed true true true canon s d (inl h) = inl h
host-IsListed true true true canon s d (inr h) = inr (set_add-Any _ s d.in_subdomains h)
host-IsListed true true false canon s d (inl h) = inl (set_add-Any _ s d.in_domains h)
host-IsListed true true false canon s d (inr h) = inr h
host-IsListed true false true canon s d h = h
host-IsListed true false false canon s d h = h
host-IsListed false true true canon s d h = h
host-IsListed false true false canon s d h = h
host-IsListed false false true canon s d (inl h) = inl h
host-IsListed false false true canon s d (inr h) = inr (set_add-Any _ s d.out_subdomains h)
host-IsListed false false false canon s d (inl h) = inl (set_add-Any _ s d.out_domains h)
host-IsListed false false false canon s d (inr h) = inr h

new-IsListed : (b w : Bool) (s : String) (d : ScopeDraft) → IsListed b s (add_host b w s d)
unfolding add_host
new-IsListed true true s d = inr (set_add-member s d.in_subdomains)
new-IsListed true false s d = inl (set_add-member s d.in_domains)
new-IsListed false true s d = inr (set_add-member s d.out_subdomains)
new-IsListed false false s d = inl (set_add-member s d.out_domains)

ip-IsListed :
    (b c : Bool) (canon net : String) (d : ScopeDraft)
    → IsListed b canon d
    → IsListed b canon (add_ip c net d)
unfolding add_ip
ip-IsListed true true canon net d h = h
ip-IsListed true false canon net d h = h
ip-IsListed false true canon net d h = h
ip-IsListed false false canon net d h = h

warn-IsListed :
    (b : Bool) (canon w : String) (d : ScopeDraft)
    → IsListed b canon d
    → IsListed b canon (warn w d)
warn-IsListed true canon w d h = h
warn-IsListed false canon w d h = h

drafted-IsInScope :
    (b : Bool) (canon : String) (d : ScopeDraft) (meta : Meta) (platform : Platform)
    (policy_url : Option String) (until verified : Option ℕ)
    → IsListed b canon d
    → IsInScope b canon
        (drafted d meta.program_name platform policy_url until verified meta.rate_limits)
unfolding drafted
drafted-IsInScope true canon d meta platform policy_url until verified (inl h) =
    inl (sorted-Any _ d.in_domains h)
drafted-IsInScope true canon d meta platform policy_url until verified (inr h) =
    inr (sorted-Any _ d.in_subdomains h)
drafted-IsInScope false canon d meta platform policy_url until verified (inl h) =
    inl (sorted-Any _ d.out_domains h)
drafted-IsInScope false canon d meta platform policy_url until verified (inr h) =
    inr (sorted-Any _ d.out_subdomains h)

module _ (I : Importing) where
  canonical-IsListed :
      (side : Bool) (canon identifier host base : String) (b w : Bool) (d : ScopeDraft)
      → canonical_host I.libs host ≡ ok base
      → IsListed side canon d
      → IsListed side canon (add_canonical I identifier b w base d)
  unfolding add_canonical
  canonical-IsListed side canon identifier host base b w d e h =
      let reg = I.libs.registered_domain base in
      elim (Bool-cases (reg == "")) [
        | inl r ↦ rw (r, add_canonical) (warn-IsListed side canon _ d h)
        | inr r ↦ elim (Bool-cases (denylisted reg)) [
          | inl l ↦ rw (r, l, add_canonical) (warn-IsListed side canon _ d h)
          | inr l ↦ rw (r, l, add_canonical) (host-IsListed side b _ canon _ d h)
        ]
      ]

  IsListed-IsAdded : (side : Bool) (canon : String) → IsAdded I (IsListed side canon)
  IsListed-IsAdded side canon = record {
    warn_added = warn-IsListed side canon;
    ip_added = λ b net d. ip-IsListed side b canon net d;
    canonical_added = canonical-IsListed side canon;
  }

  -- A text that ScopeDraft.add takes for a host, and the name it is kept under: no address, a host
  -- with a canonical form, behind a wildcard or not, whose registrable domain exists and is not on the
  -- deny list.
  pub record IsAccepted (given canon : String) : Type 0 where
    pub host : String
    pub base : String
    pub is_full : Text.strip (is_space I.libs) given == "" ≡ false
    pub is_named :
        (looks_like_cidr I (Text.strip (is_space I.libs) given)
          || looks_like_ip I (Text.strip (is_space I.libs) given))
        ≡ false
    pub is_host : asset_host I (Text.strip (is_space I.libs) given) ≡ ok host
    pub has_host : host == "" ≡ false
    pub is_canonical : canonical_host I.libs (wildcard_base host) ≡ ok base
    pub has_domain : I.libs.registered_domain base == "" ≡ false
    pub passes : denylisted (I.libs.registered_domain base) ≡ false
    pub is_kept_as : (if Text.starts_with host "*." then "*." <> base else base) ≡ canon

  add-IsListed :
      (given canon : String) (b : Bool) (d : ScopeDraft)
      → IsAccepted given canon
      → Ensures (IsListed b canon) (add I given b d)
  unfolding add add_named add_canonical
  add-IsListed given canon b d a =
      let w = Text.starts_with a.host "*." || not (I.libs.registered_domain a.base == a.base) in
      let name = if Text.starts_with a.host "*." then "*." <> a.base else a.base in
      rw
        (
          a.is_full, a.is_named, a.is_host, a.has_host, a.is_canonical, a.has_domain, a.passes, add,
          add_named, add_canonical,
        )
        (subst (λ s. IsListed b s (add_host b w name d)) a.is_kept_as (new-IsListed b w name d))

  -- A line of a plain text file for a name: in scope, or out of scope behind an exclamation mark.
  pub record IsLine (b : Bool) (raw canon : String) : Type 0 where
    pub is_full : Text.strip (is_space I.libs) raw == "" ≡ false
    pub no_comment : Text.starts_with (Text.strip (is_space I.libs) raw) "#" ≡ false
    pub has_mark : Text.starts_with (Text.strip (is_space I.libs) raw) "!" ≡ not b
    pub accepted :
        IsAccepted
          (if b
            then Text.strip (is_space I.libs) raw
            else Text.strip (is_space I.libs) (Text.drop 1 (Text.strip (is_space I.libs) raw)))
          canon

  line-IsListed :
      (b : Bool) (raw canon : String) (d : ScopeDraft)
      → IsLine b raw canon
      → Ensures (IsListed b canon) (add_line I raw d)
  unfolding add_line
  line-IsListed true raw canon d l =
      rw (l.is_full, l.no_comment, l.has_mark, add_line) (add-IsListed _ canon true d l.accepted)
  line-IsListed false raw canon d l =
      rw (l.is_full, l.no_comment, l.has_mark, add_line) (add-IsListed _ canon false d l.accepted)

  later-IsListed :
      (b : Bool) (canon : String) (lines : List String) (d : ScopeDraft)
      → IsListed b canon d
      → Ensures (IsListed b canon) (add_lines I lines d)
  unfolding add_lines
  later-IsListed b canon [] d h = h
  later-IsListed b canon (line ∷ lines) d h =
      >>=-Ensures (IsListed b canon) (IsListed b canon) (add_line I line d) _
        (add_line-kept I (IsListed b canon) (IsListed-IsAdded b canon) line d h)
        λ d1 h1. later-IsListed b canon lines d1 h1

  lines-IsListed :
      (b : Bool) (raw canon : String) (lines : List String) (d : ScopeDraft)
      → Any (λ l. l ≡ raw) lines
      → IsLine b raw canon
      → Ensures (IsListed b canon) (add_lines I lines d)
  unfolding add_lines
  lines-IsListed b raw canon [] d m l = elim m [ ]
  lines-IsListed b raw canon (line ∷ lines) d (inl e) l =
      >>=-Ensures (IsListed b canon) (IsListed b canon) (add_line I line d) _
        (line-IsListed b line canon d (subst (λ x. IsLine b x canon) (sym e) l))
        λ d1 h1. later-IsListed b canon lines d1 h1
  lines-IsListed b raw canon (line ∷ lines) d (inr m) l =
      any-Ensures (IsListed b canon) (add_line I line d) _
        λ d1. lines-IsListed b raw canon lines d1 m l

  sorted-IsInScope :
      (b : Bool) (canon : String) (d : ScopeDraft) (meta : Meta)
      → IsListed b canon d
      → Ensures (IsInScope b canon) (to_scope_config I d meta)
  unfolding to_scope_config
  sorted-IsInScope b canon d meta h =
      any-Ensures (IsInScope b canon) (guard (not (is_empty d)) empty_scope) _ λ u.
        any-Ensures (IsInScope b canon) (expect validation_error (platform_named meta.platform)) _
          λ platform.
            any-Ensures (IsInScope b canon) (optional_text meta.policy_url) _ λ policy_url.
              any-Ensures (IsInScope b canon) (optional_date I meta.authorized_until) _ λ until.
                any-Ensures (IsInScope b canon) (optional_date I meta.last_verified_at) _
                  λ verified. drafted-IsInScope b canon d meta platform policy_url until verified h

  -- Each line of a plain text scope file whose host is accepted stands in the scope that is built from
  -- it, on the side that the line names: no exclusion that can be read is lost, whatever the other
  -- lines are.
  pub parse_plaintext-IsInScope :
      (t raw canon : String) (b : Bool) (meta : Meta) {d : ScopeDraft} {cfg : ScopeConfig}
      → Any (λ l. l ≡ raw) (Text.splitlines t)
      → IsLine b raw canon
      → parse_plaintext I t ≡ ok d
      → to_scope_config I d meta ≡ ok cfg
      → IsInScope b canon cfg
  unfolding parse_plaintext
  parse_plaintext-IsInScope t raw canon b meta {d} m l parsed built =
      Ensures-ok (IsInScope b canon) (to_scope_config I d meta)
        (sorted-IsInScope b canon d meta (
          Ensures-ok (IsListed b canon) (parse_plaintext I t)
            (>>=-Ensures (IsListed b canon) (IsListed b canon)
              (add_lines I (Text.splitlines t) empty) _
              (lines-IsListed b raw canon (Text.splitlines t) empty m l)
              λ d1 h.
                any-Ensures (IsListed b canon) (guard (not (is_empty d1)) no_targets) _ λ u. h)
            parsed))
        built
