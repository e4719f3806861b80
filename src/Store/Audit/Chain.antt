-- ===== src/Store/Audit/Chain.antt =====
-- The chain of src/bbagent/store/audit.py when records are appended or cut off.
use bugbounty_agent.Base.{ℕ, ◌≡◌, refl, String, true, Option, [], ◌∷◌, ◌++◌, eq_iff, arith}
use bugbounty_agent.Store.Audit.{
  Event, Hashing, Record, Log, genesis, hash, last_from, last_hash, append, verify_from,
  verify_chain,
}

module _ (H : Hashing) where
  -- What verify_from asks of each record.
  abbrev pub IsChain : String → Log → Type 0
  IsChain prev [] = Unit
  IsChain prev (rec ∷ recs) =
      (rec.prev_hash ≡ prev)
      × (rec.record_hash ≡ hash H prev rec.body)
      × IsChain rec.record_hash recs

  pub verify_from-true :
      (prev : String) (log : Log) → verify_from H prev log ≡ true → IsChain prev log
  unfolding verify_from
  verify_from-true prev [] h = tt
  verify_from-true prev (rec ∷ recs) h = ground (
    arith,
    eq_iff rec.prev_hash prev,
    eq_iff rec.record_hash (hash H prev rec.body),
    verify_from-true rec.record_hash recs,
  )

  true-verify_from : (prev : String) (log : Log) → IsChain prev log → verify_from H prev log ≡ true
  unfolding verify_from
  true-verify_from prev [] h = refl
  true-verify_from prev (rec ∷ recs) h = ground (
    arith,
    eq_iff rec.prev_hash prev,
    eq_iff rec.record_hash (hash H prev rec.body),
    true-verify_from rec.record_hash recs,
  )

  last_from-append :
      (prev : String) (log : Log) (rec : Record)
      → last_from H prev (log ++ rec ∷ []) ≡ rec.record_hash
  unfolding last_from
  last_from-append prev [] rec = refl
  last_from-append prev (r ∷ log) rec = last_from-append r.record_hash log rec

  -- A chain goes on behind its last hash.
  IsChain-append :
      (prev : String) (log more : Log)
      → IsChain prev log
      → IsChain (last_from H prev log) more
      → IsChain prev (log ++ more)
  unfolding last_from
  IsChain-append prev [] more h k = k
  IsChain-append prev (rec ∷ log) more (p, q, h) k =
      (p, q, IsChain-append rec.record_hash log more h k)

  IsChain-prefix : (prev : String) (log more : Log) → IsChain prev (log ++ more) → IsChain prev log
  IsChain-prefix prev [] more h = tt
  IsChain-prefix prev (rec ∷ log) more (p, q, h) = (p, q, IsChain-prefix rec.record_hash log more h)

  -- Appending an event to a log that verifies gives a log that verifies, whose last hash is the hash
  -- that append returns.
  pub verify_chain-append :
      (log : Log) (event : Event) (seq : Option ℕ)
      → verify_chain H log ≡ true
      → (verify_chain H (append H log event seq).0 ≡ true)
        × (last_hash H (append H log event seq).0 ≡ (append H log event seq).1)
  unfolding verify_chain append last_hash
  verify_chain-append log event seq h =
      let prev = last_from H genesis log in
      let rec : Record = record {
        body = (seq, event);
        prev_hash = prev;
        record_hash = hash H prev (seq, event);
      } in
      let chain = verify_from-true genesis log h in
      (
        true-verify_from genesis (log ++ rec ∷ [])
            (IsChain-append genesis log (rec ∷ []) chain (refl, refl, tt)),
        last_from-append genesis log rec,
      )

  -- Records that are cut off at the end go unnoticed: what is left of a log that verifies verifies.
  pub verify_chain-truncated :
      (log more : Log) → verify_chain H (log ++ more) ≡ true → verify_chain H log ≡ true
  unfolding verify_chain
  verify_chain-truncated log more h =
      true-verify_from genesis log
        (IsChain-prefix genesis log more (verify_from-true genesis (log ++ more) h))
