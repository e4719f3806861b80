-- ===== src/Store/Findings/Invariant.antt =====
-- The invariant of src/bbagent/store/store.py: the log verifies and the keys of assets differ.
use bugbounty_agent.Base.{
  ℕ, ◌≡◌, ◌≢◌, inl, inr, refl, sym, String, true, none, List, [], ◌∷◌, ◌++◌, ◌==◌, eq_iff, arith,
  Option-cases, if◌then◌else◌,
}
use bugbounty_agent.Store.Models.{Asset, identity_key}
use bugbounty_agent.Store.Audit.{Hashing, Log, Event, append, verify_chain}
use bugbounty_agent.Store.Audit.Chain.{verify_chain-append}
use bugbounty_agent.Store.Findings.{
  AssetRow, FindingsStore, find_asset, update_rows, overwrite, write_asset,
}

-- No row has the key.
abbrev pub IsFresh : String → List AssetRow → Type 0
IsFresh key [] = Unit
IsFresh key (row ∷ rows) = (row.identity_key ≢ key) × IsFresh key rows

-- The UNIQUE constraint of the table.
abbrev pub HasUniqueKeys : List AssetRow → Type 0
HasUniqueKeys [] = Unit
HasUniqueKeys (row ∷ rows) = IsFresh row.identity_key rows × HasUniqueKeys rows

abbrev pub KeepsKey : (AssetRow → AssetRow) → Type 0
KeepsKey f = (row : AssetRow) → (f row).identity_key ≡ row.identity_key

IsFresh-update_rows :
    (k key : String) (f : AssetRow → AssetRow) (rows : List AssetRow)
    → KeepsKey f
    → IsFresh k rows
    → IsFresh k (update_rows key f rows)
unfolding update_rows
IsFresh-update_rows k key f [] same h = tt
IsFresh-update_rows k key f (row ∷ rows) same (here, more) =
    (ground (arith, same row), IsFresh-update_rows k key f rows same more)

pub HasUniqueKeys-update_rows :
    (key : String) (f : AssetRow → AssetRow) (rows : List AssetRow)
    → KeepsKey f
    → HasUniqueKeys rows
    → HasUniqueKeys (update_rows key f rows)
unfolding update_rows
HasUniqueKeys-update_rows key f [] same h = tt
HasUniqueKeys-update_rows key f (row ∷ rows) same (here, more) =
    let fresh = IsFresh-update_rows row.identity_key key f rows same here in
    let kept : (if row.identity_key == key then f row else row).identity_key ≡ row.identity_key =
      ground (arith, same row) in
    (rw kept fresh, HasUniqueKeys-update_rows key f rows same more)

IsFresh-of_none :
    (key : String) (rows : List AssetRow) → find_asset key rows ≡ none → IsFresh key rows
unfolding find_asset
IsFresh-of_none key [] h = tt
IsFresh-of_none key (row ∷ rows) h =
    (ground (arith, eq_iff row.identity_key key), IsFresh-of_none key rows (ground arith))

IsFresh-append :
    (k : String) (rows : List AssetRow) (row : AssetRow)
    → IsFresh k rows
    → row.identity_key ≢ k
    → IsFresh k (rows ++ row ∷ [])
IsFresh-append k [] row h other = (other, tt)
IsFresh-append k (r ∷ rows) row (here, more) other = (here, IsFresh-append k rows row more other)

pub HasUniqueKeys-append :
    (rows : List AssetRow) (row : AssetRow)
    → HasUniqueKeys rows
    → IsFresh row.identity_key rows
    → HasUniqueKeys (rows ++ row ∷ [])
HasUniqueKeys-append [] row h f = (tt, tt)
HasUniqueKeys-append (r ∷ rows) row (here, more) (other, fresh) = (
  IsFresh-append r.identity_key rows row here (λ e. other (sym e)),
  HasUniqueKeys-append rows row more fresh,
)

pub record IsValid (H : Hashing) (s : FindingsStore) : Type 0 where
  pub chain : verify_chain H s.audit ≡ true
  pub keys : HasUniqueKeys s.assets

module _ (H : Hashing) where
  pub chained :
      (log : Log) (event : Event)
      → verify_chain H log ≡ true
      → verify_chain H (append H log event none).0 ≡ true
  chained log event h = (verify_chain-append H log event none h).0

  pub write_asset-IsValid :
      (s : FindingsStore) (a : Asset) (decision : ℕ)
      → IsValid H s
      → IsValid H (write_asset H s a decision).0
  unfolding write_asset
  write_asset-IsValid s a decision v = elim (Option-cases (find_asset (identity_key a) s.assets)) [
    | inl miss ↦
        rw (miss, write_asset)
          (record {
            chain = chained s.audit (Event.asset a) v.chain;
            keys = HasUniqueKeys-append s.assets _ v.keys (IsFresh-of_none _ s.assets miss);
          })
    | inr (row, hit) ↦
        rw (hit, write_asset)
          (record {
            chain = chained s.audit (Event.asset a) v.chain;
            keys =
                HasUniqueKeys-update_rows _ (overwrite a) s.assets (λ r. unfold overwrite in refl)
                  v.keys;
          })
  ]
