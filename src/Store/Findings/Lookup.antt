-- ===== src/Store/Findings/Lookup.antt =====
-- The assets of src/bbagent/store/store.py as a map from identity keys.
use bugbounty_agent.Base.{
  ℕ, ◌+◌, ◌≡◌, inl, inr, refl, String, Bool, Option, none, some, List, [], ◌∷◌, ◌++◌, ◌==◌, eq_iff,
  length, arith, Option-cases, if◌then◌else◌,
}
use bugbounty_agent.Store.Models.{Asset, identity_key}
use bugbounty_agent.Store.Audit.{Hashing, Event, append}
use bugbounty_agent.Store.Findings.{
  AssetRow, FindingsStore, find_asset, update_rows, overwrite, new_row, write_asset,
}
use bugbounty_agent.Store.Findings.Invariant.{KeepsKey}

-- A row of the map, with a change at one key.
abbrev pub updated : Bool → (AssetRow → AssetRow) → Option AssetRow → Option AssetRow
updated b f none = none
updated b f (some row) = some (if b then f row else row)

find-update_rows :
    (j k : String) (f : AssetRow → AssetRow) (rows : List AssetRow)
    → KeepsKey f
    → find_asset j (update_rows k f rows) ≡ updated (k == j) f (find_asset j rows)
unfolding find_asset update_rows
find-update_rows j k f [] same = refl
find-update_rows j k f (row ∷ rows) same = ground (
  arith,
  find-update_rows j k f rows same,
  same row,
  eq_iff row.identity_key k,
  eq_iff row.identity_key j,
  eq_iff k j,
)

find-append :
    (j : String) (rows : List AssetRow) (row : AssetRow)
    → find_asset j rows ≡ none
    → find_asset j (rows ++ row ∷ []) ≡ (if row.identity_key == j then some row else none)
unfolding find_asset
find-append j [] row h = refl
find-append j (r ∷ rows) row h = ground (arith, find-append j rows row)

find-append_some :
    (j : String) (rows : List AssetRow) (row r : AssetRow)
    → find_asset j rows ≡ some r
    → find_asset j (rows ++ row ∷ []) ≡ some r
unfolding find_asset
find-append_some j [] row r h = cc
find-append_some j (x ∷ rows) row r h = ground (arith, find-append_some j rows row r)

module _ (H : Hashing) where
  -- The row that an upsert leaves at the key of its asset. A new row gets the next id, the decision of
  -- the asset and the hash of the record that is logged; an old one takes the scope status, the
  -- resolve and probe states, the status and the extra of the asset, and keeps the rest: its id, its
  -- kind and value, its source, the id of its first decision and its hash.
  abbrev pub written : FindingsStore → Asset → ℕ → Option AssetRow → AssetRow
  written s a decision none = record {
    id = length s.assets + 1;
    kind = a.kind;
    value = a.value;
    identity_key = identity_key a;
    scope_status = a.scope_status;
    source = a.source;
    resolve_state = a.resolve_state;
    probe_state = a.probe_state;
    status = a.status;
    scope_decision_id = decision;
    extra = a.extra;
    audit_hash = (append H s.audit (Event.asset a) none).1;
  }
  written s a decision (some row) = record {
    id = row.id;
    kind = row.kind;
    value = row.value;
    identity_key = row.identity_key;
    scope_status = a.scope_status;
    source = row.source;
    resolve_state = a.resolve_state;
    probe_state = a.probe_state;
    status = a.status;
    scope_decision_id = row.scope_decision_id;
    extra = a.extra;
    audit_hash = row.audit_hash;
  }

  write_asset-id :
      (s : FindingsStore) (a : Asset) (decision : ℕ)
      → (write_asset H s a decision).1
        ≡ (written s a decision (find_asset (identity_key a) s.assets)).id
  unfolding write_asset
  write_asset-id s a decision = ground arith

  find-written :
      (s : FindingsStore) (a : Asset) (decision : ℕ) (j : String)
      → find_asset j (write_asset H s a decision).0.assets ≡ (
          if identity_key a == j
          then some (written s a decision (find_asset (identity_key a) s.assets))
          else find_asset j s.assets)
  unfolding write_asset new_row overwrite
  find-written s a decision j = elim (Option-cases (find_asset (identity_key a) s.assets)) [
    | inr (row, hit) ↦ ground (
      arith,
      hit,
      eq_iff (identity_key a) j,
      find-update_rows j (identity_key a) (overwrite a) s.assets (λ r. refl),
    )
    | inl miss ↦
        let row =
          new_row a (length s.assets + 1) decision (append H s.audit (Event.asset a) none).1 in
        elim (Option-cases (find_asset j s.assets)) [
          | inl absent ↦
              ground (arith, miss, eq_iff (identity_key a) j, find-append j s.assets row absent)
          | inr (r, hit) ↦
              ground (arith, miss, eq_iff (identity_key a) j, find-append_some j s.assets row r hit)
        ]
  ]

  -- After an upsert the key of the asset holds the written row, every other key holds what it held,
  -- and the id that the upsert returns is that of the written row. An old row keeps its id, its source,
  -- its hash and the id of its first decision.
  pub find-write_asset :
      (s : FindingsStore) (a : Asset) (decision : ℕ) (j : String)
      → (find_asset j (write_asset H s a decision).0.assets ≡ (
          if identity_key a == j
          then some (written s a decision (find_asset (identity_key a) s.assets))
          else find_asset j s.assets))
        × ((write_asset H s a decision).1
            ≡ (written s a decision (find_asset (identity_key a) s.assets)).id)
  find-write_asset s a decision j = (find-written s a decision j, write_asset-id s a decision)
