-- ===== src/Store/Findings/Logging.antt =====
-- What the writers of src/bbagent/store/store.py append to the audit log.
use bugbounty_agent.Base.{
  ℕ, ◌≡◌, ◌⊎◌, inl, inr, refl, sym, ap, subst, ◌∙◌, String, none, map, arith, Bool-cases,
  Option-cases, Result, ok,
}
use bugbounty_agent.Base.Sorted.{sorted}
use bugbounty_agent.Store.Models.{Asset, Finding, Dict}
use bugbounty_agent.Store.Audit.{Hashing, Event, append}
use bugbounty_agent.Store.Findings.{
  FindingsStore, Error, find_asset, write_asset, upsert_asset, update_asset_extra,
  update_asset_state, Columns, no_columns, record_finding, record_run, record_scope_decision,
  record_tool_invocation,
}
use bugbounty_agent.Store.Findings.Calls.{
  Call, run, scope_decision, asset, extra, state, finding, tool, perform,
}

module _ (H : Hashing) where
  -- The store is as it was, or its log has one record more.
  abbrev pub Logs : FindingsStore → FindingsStore → Type 0
  Logs s t = (t ≡ s) ⊎ ((e : Event) × (t.audit ≡ (append H s.audit e none).0))

  abbrev Grows : FindingsStore → Event → FindingsStore → Type 0
  Grows s e t = t.audit ≡ (append H s.audit e none).0

  write_asset-logs :
      (s : FindingsStore) (a : Asset) (d : ℕ) → Grows s (Event.asset a) (write_asset H s a d).0
  unfolding write_asset
  write_asset-logs s a d = ground arith

  ok_inj : {s t : FindingsStore} → ◌≡◌ {A = Result Error FindingsStore} (ok s) (ok t) → s ≡ t
  ok_inj e = cc e

  asset-Logs : (s t : FindingsStore) (a : Asset) → perform H s (asset a) ≡ ok t → Logs s t
  unfolding upsert_asset
  asset-Logs s t a e = elim (Option-cases a.scope_decision_id) [
    | inl none' ↦ absurd (ground arith)
    | inr (d, some') ↦
        let same : (write_asset H s a d).0 ≡ t = ground arith in
        inr (Event.asset a, ap (λ (u : FindingsStore). u.audit) (sym same) ∙ write_asset-logs s a d)
  ]

  extra-Logs :
      (s : FindingsStore) (key : String) (updates : Dict)
      → Logs s (update_asset_extra H s key updates)
  unfolding update_asset_extra
  extra-Logs s key updates = elim (Option-cases (find_asset key s.assets)) [
    | inl miss ↦ inl (rw (miss, update_asset_extra) refl)
    | inr (row, hit) ↦
        inr (
          Event.asset_extra key (sorted (map (λ e. e.0) updates)),
          rw (hit, update_asset_extra) refl,
        )
  ]

  state-Logs :
      (s : FindingsStore) (key : String) (c : Columns) → Logs s (update_asset_state H s key c)
  unfolding update_asset_state
  state-Logs s key c = elim (Bool-cases (no_columns c)) [
    | inl nothing ↦ inl (rw nothing refl)
    | inr something ↦ inr (
      Event.asset_state key c.resolve_state c.probe_state c.status c.scope_decision_id,
      rw something refl,
    )
  ]

  finding-Logs : (s t : FindingsStore) (f : Finding) → record_finding H s f ≡ ok t → Logs s t
  unfolding record_finding
  finding-Logs s t f e = elim (Option-cases f.scope_decision_id) [
    | inl none' ↦ absurd (ground arith)
    | inr (d, some') ↦ inr (Event.finding f, ground arith)
  ]

  -- A call that does not raise leaves the store as it is, or it has appended one record to the audit
  -- log: the store does not change without a record.
  pub perform-Logs : (s t : FindingsStore) (c : Call) → perform H s c ≡ ok t → Logs s t
  unfolding record_run record_scope_decision record_tool_invocation
  perform-Logs s t (run program scope mode started) e =
      inr (Event.run program mode started, ground arith)
  perform-Logs s t (scope_decision d) e = inr (Event.scope_decision d, ground arith)
  perform-Logs s t (asset a) e = asset-Logs s t a e
  perform-Logs s t (extra key updates) e = subst (Logs s) (ok_inj e) (extra-Logs s key updates)
  perform-Logs s t (state key c) e = subst (Logs s) (ok_inj e) (state-Logs s key c)
  perform-Logs s t (finding f) e = finding-Logs s t f e
  perform-Logs s t (tool x argv code d) e = inr (Event.tool_invocation x argv code, ground arith)

  -- The record of a merge into an asset's extra names the keys and no values: merges of the same
  -- keys leave the same log, whatever the values that they write.
  pub update_asset_extra-values :
      (s : FindingsStore) (key : String) (d e : Dict)
      → map (λ (x : String × String). x.0) d ≡ map (λ (x : String × String). x.0) e
      → (update_asset_extra H s key d).audit ≡ (update_asset_extra H s key e).audit
  unfolding update_asset_extra
  update_asset_extra-values s key d e same = elim (Option-cases (find_asset key s.assets)) [
    | inl miss ↦ rw (miss, update_asset_extra) refl
    | inr (row, hit) ↦ rw (hit, update_asset_extra) (rw same refl)
  ]
