-- ===== src/Store/Findings/Calls.antt =====
-- The calls of the writers of src/bbagent/store/store.py, and sequences of them.
use bugbounty_agent.Base.{
  ℕ, inl, inr, refl, String, List, [], ◌∷◌, Bool-cases, Option-cases, Result, ok, err,
}
use bugbounty_agent.Scope.Models.{ScopeDecision}
use bugbounty_agent.Store.Models.{Asset, Finding, Dict}
use bugbounty_agent.Store.Audit.{Hashing, Event, verify_chain}
use bugbounty_agent.Store.Findings.{
  FindingsStore, empty, Error, find_asset, set_columns, no_columns, Columns, record_run,
  record_scope_decision, upsert_asset, update_asset_extra, update_asset_state, record_finding,
  record_tool_invocation,
}
use bugbounty_agent.Store.Findings.Invariant.{
  IsValid, HasUniqueKeys-update_rows, chained, write_asset-IsValid,
}

-- A call of a writer of the store.
pub data Call : Type 0 where
  run : String → String → String → String → Call
  scope_decision : ScopeDecision → Call
  asset : Asset → Call
  extra : String → Dict → Call
  state : String → Columns → Call
  finding : Finding → Call
  tool : String → List String → ℕ → ℕ → Call

abbrev first : {A : Type 0} → Result Error (FindingsStore × A) → Result Error FindingsStore
first (ok (s, a)) = ok s
first (err e) = err e

module _ (H : Hashing) where
  -- The store that a call leaves, where it does not raise.
  abbrev pub perform : FindingsStore → Call → Result Error FindingsStore
  perform s (run program scope mode started) = ok (record_run H s program scope mode started).0
  perform s (scope_decision d) = ok (record_scope_decision H s d).0
  perform s (asset a) = first (upsert_asset H s a)
  perform s (extra key updates) = ok (update_asset_extra H s key updates)
  perform s (state key c) = ok (update_asset_state H s key c)
  perform s (finding f) = record_finding H s f
  perform s (tool t argv code d) = ok (record_tool_invocation H s t argv code d).0

  -- A call that raises leaves the store as it was.
  abbrev pub stepped : FindingsStore → Result Error FindingsStore → FindingsStore
  stepped s (ok t) = t
  stepped s (err e) = s

  abbrev pub performed : FindingsStore → List Call → FindingsStore
  performed s [] = s
  performed s (c ∷ calls) = performed (stepped s (perform s c)) calls

  update_asset_extra-IsValid :
      (s : FindingsStore) (key : String) (updates : Dict)
      → IsValid H s
      → IsValid H (update_asset_extra H s key updates)
  unfolding update_asset_extra
  update_asset_extra-IsValid s key updates v = elim (Option-cases (find_asset key s.assets)) [
    | inl miss ↦ rw (miss, update_asset_extra) v
    | inr (row, hit) ↦
        rw (hit, update_asset_extra)
          (record {
            chain = chained H s.audit _ v.chain;
            keys = HasUniqueKeys-update_rows key _ s.assets (λ r. refl) v.keys;
          })
  ]

  update_asset_state-IsValid :
      (s : FindingsStore) (key : String) (c : Columns)
      → IsValid H s
      → IsValid H (update_asset_state H s key c)
  unfolding update_asset_state
  update_asset_state-IsValid s key c v = elim (Bool-cases (no_columns c)) [
    | inl none' ↦ rw none' v
    | inr some' ↦ rw some' (record {
      chain = chained H s.audit _ v.chain;
      keys = HasUniqueKeys-update_rows key _ s.assets (λ r. unfold set_columns in refl) v.keys;
    })
  ]

  record_finding-IsValid :
      (s : FindingsStore) (f : Finding) → IsValid H s → IsValid H (stepped s (record_finding H s f))
  unfolding record_finding
  record_finding-IsValid s f v = elim (Option-cases f.scope_decision_id) [
    | inl none' ↦ rw (none', record_finding) v
    | inr (d, some') ↦
        rw (some', record_finding)
          (record { chain = chained H s.audit (Event.finding f) v.chain; keys = v.keys })
  ]

  upsert_asset-IsValid :
      (s : FindingsStore) (a : Asset)
      → IsValid H s
      → IsValid H (stepped s (first (upsert_asset H s a)))
  unfolding upsert_asset
  upsert_asset-IsValid s a v = elim (Option-cases a.scope_decision_id) [
    | inl none' ↦ rw (none', upsert_asset) v
    | inr (d, some') ↦ rw (some', upsert_asset) (write_asset-IsValid H s a d v)
  ]

  pub step-IsValid :
      (s : FindingsStore) (c : Call) → IsValid H s → IsValid H (stepped s (perform s c))
  unfolding record_run record_scope_decision record_tool_invocation
  step-IsValid s (run program scope mode started) v = record {
    chain = chained H s.audit _ v.chain;
    keys = v.keys;
  }
  step-IsValid s (scope_decision d) v = record {
    chain = chained H s.audit _ v.chain;
    keys = v.keys;
  }
  step-IsValid s (asset a) v = upsert_asset-IsValid s a v
  step-IsValid s (extra key updates) v = update_asset_extra-IsValid s key updates v
  step-IsValid s (state key c) v = update_asset_state-IsValid s key c v
  step-IsValid s (finding f) v = record_finding-IsValid s f v
  step-IsValid s (tool t argv code d) v = record {
    chain = chained H s.audit _ v.chain;
    keys = v.keys;
  }

  performed-IsValid :
      (s : FindingsStore) (calls : List Call) → IsValid H s → IsValid H (performed s calls)
  performed-IsValid s [] v = v
  performed-IsValid s (c ∷ calls) v =
      performed-IsValid (stepped s (perform s c)) calls (step-IsValid s c v)

  -- Whatever calls are made on a new store, its audit log verifies and no two of its assets have one
  -- identity key.
  pub store_invariant : (calls : List Call) → IsValid H (performed empty calls)
  unfolding verify_chain
  store_invariant calls = performed-IsValid empty calls (record { chain = refl; keys = tt })
