-- ===== src/Store/Audit/Tampering.antt =====
-- What the last hash of a log of src/bbagent/store/audit.py fixes.
use Prim.Native.String.{◌∷◌ as ◌∷ˢ◌}
use bugbounty_agent.Base.{
  ◌≡◌, ◌≢◌, ◌⊎◌, inl, inr, refl, sym, ◌∙◌, String, true, List, [], ◌∷◌, map, length, arith,
  String-discrete,
}
use bugbounty_agent.Base.Text.{◌<>◌, len}
use bugbounty_agent.Store.Audit.{
  Hashing, Record, Log, genesis, hash, last_from, last_hash, verify_chain,
}
use bugbounty_agent.Store.Audit.Chain.{IsChain, verify_from-true}

append_inj : (a b s t : String) → len a ≡ len b → a <> s ≡ b <> t → (a ≡ b) × (s ≡ t)
append_inj String.[] String.[] s t h e = (refl, e)
append_inj String.[] (c ∷ˢ b) s t h e = absurd (omega arith)
append_inj (c ∷ˢ a) String.[] s t h e = absurd (omega arith)
append_inj (c ∷ˢ a) (d ∷ˢ b) s t h e =
    let (front, rest) = append_inj a b s t (omega arith) (cc e) in
    let first : c ≡ d = cc e in (cc (first, front), rest)

-- Two texts with one digest.
abbrev pub Collision : Hashing → Type 0
Collision H = (x : String) × (y : String) × (x ≢ y) × (H.sha256 x ≡ H.sha256 y)

-- The texts that the records of a log hash.
abbrev pub texts : Hashing → Log → List String
texts H = map (λ (r : Record). H.canonical r.body)

module _ (H : Hashing) (long : (s : String) → len (H.sha256 s) ≡ 64) where
  -- One record: the same hash comes from the same previous hash and the same text.
  one_record :
      (p q : String) (r s : Record)
      → len p ≡ len q
      → hash H p r.body ≡ hash H q s.body
      → ((p ≡ q) × (H.canonical r.body ≡ H.canonical s.body)) ⊎ Collision H
  unfolding hash
  one_record p q r s same e =
      let x = p <> H.canonical r.body in
      let y = q <> H.canonical s.body in
      elim (String-discrete x y) [
        | yes equal ↦ inl (append_inj p q (H.canonical r.body) (H.canonical s.body) same equal)
        | no other ↦ inr (x, y, other, e)
      ]

  hash_long : (p : String) (r : Record) (h : String) → h ≡ hash H p r.body → len h ≡ 64
  unfolding hash
  hash_long p r h e = rw e (long (p <> H.canonical r.body))

  same_chain :
      (p q : String) (a b : Log)
      → len p ≡ 64
      → len q ≡ 64
      → IsChain H p a
      → IsChain H q b
      → length a ≡ length b
      → last_from H p a ≡ last_from H q b
      → ((p ≡ q) × (texts H a ≡ texts H b)) ⊎ Collision H
  unfolding last_from
  same_chain p q [] [] lp lq ca cb n e = inl (e, refl)
  same_chain p q [] (s ∷ b) lp lq ca cb n e = absurd (omega arith)
  same_chain p q (r ∷ a) [] lp lq ca cb n e = absurd (omega arith)
  same_chain p q (r ∷ a) (s ∷ b) lp lq (_, hr, ca) (_, hs, cb) n e =
      elim (same_chain r.record_hash s.record_hash a b (hash_long p r r.record_hash hr)
        (hash_long q s s.record_hash hs) ca cb (omega arith) e) [
          | inr clash ↦ inr clash
          | inl (here, rest) ↦ elim (one_record p q r s (omega arith) (sym hr ∙ here ∙ hs)) [
            | inr clash ↦ inr clash
            | inl (prev, text) ↦ inl (prev, cc (text, rest))
          ]
        ]

  -- Two logs of one length that verify and that end in the same hash hold the same texts, record by
  -- record, or they show a collision of the digest. The digest is taken to have 64 characters.
  pub verify_chain_unique :
      (a b : Log)
      → verify_chain H a ≡ true
      → verify_chain H b ≡ true
      → length a ≡ length b
      → last_hash H a ≡ last_hash H b
      → (texts H a ≡ texts H b) ⊎ Collision H
  unfolding verify_chain last_hash
  verify_chain_unique a b ha hb n e =
      elim (same_chain genesis genesis a b refl refl (verify_from-true H genesis a ha)
        (verify_from-true H genesis b hb) n e) [ inl (_, same) ↦ inl same | inr clash ↦ inr clash ]
