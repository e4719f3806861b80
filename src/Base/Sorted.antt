-- ===== src/Base/Sorted.antt =====
-- Python's sorted, for a list of strings.
use Prim.Native.String.{String}
use mathlib.Core.List.{List, [], ◌∷◌, Perm}
use mathlib.Core.List.Perm
use mathlib.Core.Logic.{◌⊎◌, inl, inr}
use bugbounty_agent.Base.Tests.{if◌then◌else◌, Bool-cases}
use mathlib.Core.Path.{◌≡◌, refl}
use mathlib.Core.Bool.{Bool, true, false}
use bugbounty_agent.Base.Lists.{All, Any}
use bugbounty_agent.Base.Text

-- Python's sorted with a key, for the order that the key gives: stable, by insertion.
module _ {A : Type 0} (before : A → A → Bool) where
  unfoldable pub insert_by : A → List A → List A
  insert_by a [] = a ∷ []
  insert_by a (x ∷ xs) = let rest = insert_by a xs in if before a x then a ∷ x ∷ xs else x ∷ rest

  unfoldable pub sort_by : List A → List A
  unfolding insert_by
  sort_by [] = []
  sort_by (x ∷ xs) = insert_by x (sort_by xs)

  insert_by-perm : (a : A) (xs : List A) → Perm (insert_by a xs) (a ∷ xs)
  unfolding insert_by
  insert_by-perm a [] = Perm.refl (a ∷ [])
  insert_by-perm a (x ∷ xs) = elim (Bool-cases (before a x)) [
    | inl first ↦ rw (first, insert_by) (Perm.refl (a ∷ x ∷ xs))
    | inr later ↦
        rw (later, insert_by) (Perm.trans (Perm.cons x (insert_by-perm a xs)) (Perm.swap a x xs))
  ]

  -- sort_by returns the elements of its argument.
  pub sort_by-perm : (xs : List A) → Perm (sort_by xs) xs
  unfolding sort_by
  sort_by-perm [] = Perm.refl []
  sort_by-perm (x ∷ xs) = Perm.trans (insert_by-perm x (sort_by xs)) (Perm.cons x (sort_by-perm xs))

  insert_by-All : (P : A → Type 0) (a : A) (xs : List A) → P a → All P xs → All P (insert_by a xs)
  unfolding insert_by
  insert_by-All P a [] pa h = (pa, tt)
  insert_by-All P a (x ∷ xs) pa h = elim (Bool-cases (before a x)) [
    | inl first ↦ rw (first, insert_by) (pa, h)
    | inr later ↦ rw (later, insert_by) (h.0, insert_by-All P a xs pa h.1)
  ]

  pub sort_by-All : (P : A → Type 0) (xs : List A) → All P xs → All P (sort_by xs)
  unfolding sort_by
  sort_by-All P [] h = tt
  sort_by-All P (x ∷ xs) h = insert_by-All P x (sort_by xs) h.0 (sort_by-All P xs h.1)

  insert_by-Any : (P : A → Type 0) (a : A) (xs : List A) → P a ⊎ Any P xs → Any P (insert_by a xs)
  unfolding insert_by
  insert_by-Any P a [] h = h
  insert_by-Any P a (x ∷ xs) (inl pa) = elim (Bool-cases (before a x)) [
    | inl first ↦ rw (first, insert_by) (inl pa)
    | inr later ↦ rw (later, insert_by) (inr (insert_by-Any P a xs (inl pa)))
  ]
  insert_by-Any P a (x ∷ xs) (inr (inl px)) = elim (Bool-cases (before a x)) [
    | inl first ↦ rw (first, insert_by) (inr (inl px))
    | inr later ↦ rw (later, insert_by) (inl px)
  ]
  insert_by-Any P a (x ∷ xs) (inr (inr h)) = elim (Bool-cases (before a x)) [
    | inl first ↦ rw (first, insert_by) (inr (inr h))
    | inr later ↦ rw (later, insert_by) (inr (insert_by-Any P a xs (inr h)))
  ]

  pub sort_by-Any : (P : A → Type 0) (xs : List A) → Any P xs → Any P (sort_by xs)
  unfolding sort_by
  sort_by-Any P [] h = h
  sort_by-Any P (x ∷ xs) (inl px) = insert_by-Any P x (sort_by xs) (inl px)
  sort_by-Any P (x ∷ xs) (inr h) = insert_by-Any P x (sort_by xs) (inr (sort_by-Any P xs h))

-- Every element stands in the relation to each later one.
abbrev pub IsPairwise : {A : Type 0} → (A → A → Type 0) → List A → Type 0
IsPairwise R [] = Unit
IsPairwise R (x ∷ xs) = All (R x) xs × IsPairwise R xs

-- sort_by arranges them by a transitive relation that its test decides.
module _ {A : Type 0} (before : A → A → Bool) (R : A → A → Type 0)
    (sound : (a b : A) → before a b ≡ true → R a b) (total : (a b : A) → before a b ≡ false → R b a)
    (trans : (a b c : A) → R a b → R b c → R a c) where
  All-trans : (a x : A) (xs : List A) → R a x → All (R x) xs → All (R a) xs
  All-trans a x [] h k = tt
  All-trans a x (y ∷ ys) h k = (trans a x y h k.0, All-trans a x ys h k.1)

  insert_by-IsPairwise :
      (a : A) (xs : List A) → IsPairwise R xs → IsPairwise R (insert_by before a xs)
  unfolding insert_by
  insert_by-IsPairwise a [] h = (tt, tt)
  insert_by-IsPairwise a (x ∷ xs) h = elim (Bool-cases (before a x)) [
    | inl first ↦
        let ax = sound a x first in rw (first, insert_by) ((ax, All-trans a x xs ax h.0), h)
    | inr later ↦
        rw (later, insert_by)
          (insert_by-All before (R x) a xs (total a x later) h.0, insert_by-IsPairwise a xs h.1)
  ]

  pub sort_by-IsPairwise : (xs : List A) → IsPairwise R (sort_by before xs)
  unfolding sort_by
  sort_by-IsPairwise [] = tt
  sort_by-IsPairwise (x ∷ xs) = insert_by-IsPairwise x (sort_by before xs) (sort_by-IsPairwise xs)

-- sorted(xs), for texts
unfoldable pub sorted : List String → List String
unfolding sort_by
sorted xs = sort_by Text.le xs

-- sorted returns the elements of its argument.
pub sorted-perm : (xs : List String) → Perm (sorted xs) xs
unfolding sorted
sorted-perm xs = sort_by-perm Text.le xs

pub sorted-All : (P : String → Type 0) (xs : List String) → All P xs → All P (sorted xs)
unfolding sorted
sorted-All P xs h = sort_by-All Text.le P xs h

pub sorted-Any : (P : String → Type 0) (xs : List String) → Any P xs → Any P (sorted xs)
unfolding sorted
sorted-Any P xs h = sort_by-Any Text.le P xs h

insert_by-nil : (a : String) (xs : List String) → insert_by Text.le a xs ≡ [] → ⊥
unfolding insert_by
insert_by-nil a [] e = cc e
insert_by-nil a (x ∷ xs) e = elim (Bool-cases (Text.le a x)) [
  | inl first ↦ cc (rw (first, insert_by) at e)
  | inr later ↦ cc (rw (later, insert_by) at e)
]

-- A list that has an element still has one when it is sorted.
pub sorted-nil : (xs : List String) → sorted xs ≡ [] → xs ≡ []
unfolding sorted sort_by
sorted-nil [] e = refl
sorted-nil (x ∷ xs) e = absurd (insert_by-nil x (sort_by Text.le xs) e)
