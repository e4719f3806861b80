-- ===== src/Base/Members.antt =====
-- Members of the lists that stand for sets.
use bugbounty_agent.Base.{
  ◌≡◌, refl, inl, inr, String, true, List, [], ◌∷◌, ◌++◌, ◌==◌, eq_iff, Any, contains, set_add,
  Bool-cases, subst, sym,
}

Any-append : (P : String → Type 0) (xs : List String) (a : String) → P a → Any P (xs ++ a ∷ [])
Any-append P [] a h = inl h
Any-append P (x ∷ xs) a h = inr (Any-append P xs a h)

Any-front : (P : String → Type 0) (xs ys : List String) → Any P xs → Any P (xs ++ ys)
Any-front P [] ys h = elim h [ ]
Any-front P (x ∷ xs) ys (inl h) = inl h
Any-front P (x ∷ xs) ys (inr h) = inr (Any-front P xs ys h)

pub set_add-Any :
    (P : String → Type 0) (a : String) (xs : List String) → Any P xs → Any P (set_add a xs)
unfolding set_add
set_add-Any P a xs h = elim (Bool-cases (contains xs a)) [
  | inl e ↦ rw (e, set_add) h
  | inr e ↦ rw (e, set_add) (Any-front P xs (a ∷ []) h)
]

contains-member : (xs : List String) (a : String) → contains xs a ≡ true → Any (λ x. x ≡ a) xs
unfolding contains
contains-member [] a h = cc h
contains-member (x ∷ xs) a h = elim (Bool-cases (x == a)) [
  | inl e ↦ inl ((eq_iff x a).0 e)
  | inr e ↦ inr (contains-member xs a (rw (e, contains) at h))
]

pub Any-at :
    (P : String → Type 0) (xs : List String) (a : String) → P a → Any (λ x. x ≡ a) xs → Any P xs
Any-at P [] a h m = elim m [ ]
Any-at P (x ∷ xs) a h (inl e) = inl (subst P (sym e) h)
Any-at P (x ∷ xs) a h (inr m) = inr (Any-at P xs a h m)

pub set_add-member : (a : String) (xs : List String) → Any (λ x. x ≡ a) (set_add a xs)
unfolding set_add
set_add-member a xs = elim (Bool-cases (contains xs a)) [
  | inl e ↦ rw (e, set_add) (contains-member xs a e)
  | inr e ↦ rw (e, set_add) (Any-append (λ x. x ≡ a) xs a refl)
]

-- The element that is added is a member.
pub set_add-new : (P : String → Type 0) (a : String) (xs : List String) → P a → Any P (set_add a xs)
unfolding set_add
set_add-new P a xs h = elim (Bool-cases (contains xs a)) [
  | inl e ↦ rw (e, set_add) (Any-at P xs a h (contains-member xs a e))
  | inr e ↦ rw (e, set_add) (Any-append P xs a h)
]
