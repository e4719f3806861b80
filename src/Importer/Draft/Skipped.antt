-- ===== src/Importer/Draft/Skipped.antt =====
-- An asset that ScopeDraft.add of src/bbagent/importer/core.py skips.
use bugbounty_agent.Base.{
  ◌≡◌, refl, ap, inl, inr, String, Bool, true, false, ◌||◌, List, [], ◌∷◌, ◌++◌, ◌==◌, Bool-cases,
  ok, err,
}
use bugbounty_agent.Base.Text
use bugbounty_agent.Base.Text.{◌<>◌}
use bugbounty_agent.Scope.Canonical
use bugbounty_agent.Scope.Canonical.{is_space, canonical_host}
use bugbounty_agent.Scope.Matcher.{wildcard_base}
use bugbounty_agent.Importer.Values.{Importing}
use bugbounty_agent.Importer.Draft.{
  ScopeDraft, warn, Meta, to_scope_config, drafted, notes_text, loud, is_empty, looks_like_ip,
  looks_like_cidr, asset_host, add, add_named,
}

loud-append :
    (ws : List String) (w : String) → Text.has w "skipped" ≡ true → loud (ws ++ w ∷ []) ≡ loud ws
unfolding loud
loud-append [] w e = rw (e, loud)
loud-append (v ∷ ws) w e = elim (Bool-cases (Text.has v "skipped")) [
  | inl h ↦ rw (h, loud) (loud-append ws w e)
  | inr h ↦ rw (h, loud) (ap (λ l. v ∷ l) (loud-append ws w e))
]

module _ (I : Importing) where
  warn-to_scope_config :
      (w : String) (d : ScopeDraft) (meta : Meta)
      → Text.has w "skipped" ≡ true
      → to_scope_config I (warn w d) meta ≡ to_scope_config I d meta
  unfolding to_scope_config is_empty drafted notes_text
  warn-to_scope_config w d meta e = rw (loud-append d.warnings w e)

  -- An asset whose host has no canonical form, such as one with a port, adds a warning that
  -- to_scope_config filters out: the scope is the one without the asset, its notes included, also
  -- where the asset is out of scope.
  pub add-skipped :
      (given host : String) (error : Canonical.Error) (in_scope : Bool) (d : ScopeDraft)
      (meta : Meta)
      → Text.strip (is_space I.libs) given == "" ≡ false
      → (looks_like_cidr I (Text.strip (is_space I.libs) given)
          || looks_like_ip I (Text.strip (is_space I.libs) given))
        ≡ false
      → asset_host I (Text.strip (is_space I.libs) given) ≡ ok host
      → host == "" ≡ false
      → canonical_host I.libs (wildcard_base host) ≡ err error
      → (d' : ScopeDraft) × (add I given in_scope d ≡ ok d')
        × (to_scope_config I d' meta ≡ to_scope_config I d meta)
  unfolding add add_named Text.has Text.starts_with
  add-skipped given host error in_scope d meta full name host_eq host_ne canon =
      let w = "unparseable host asset skipped: " <> I.repr (Text.strip (is_space I.libs) given) in
      (
        warn w d,
        rw (full, name, host_eq, host_ne, canon, add, add_named),
        warn-to_scope_config w d meta refl,
      )
