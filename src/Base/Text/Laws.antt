-- ===== src/Base/Text/Laws.antt =====
-- What the text functions compute, as statements about concatenation.
use Prim.Native.Char.{Char}
use Prim.Native.String.{String, [], ◌∷◌}
use mathlib.Core.Path.{◌≡◌, refl, ap}
use mathlib.Core.Logic.{inl, inr, ◌↔◌}
use mathlib.Core.Bool.{Bool, true}
use native.Mathlib.Omega.{arith}
use Prim.Native.Nat.{◌+◌}
use text.Mathlib.Text.{◌==◌}
use text.Mathlib.TextEquality.{eq_iff}
use bugbounty_agent.Base.Tests.{Bool-cases}
use bugbounty_agent.Base.Text.{◌<>◌, len, ends_with, all_chars, lstrip, rstrip, strip, keep_end}

pub append-nil : (s : String) → s <> [] ≡ s
append-nil [] = refl
append-nil (c ∷ s) = ap (◌∷◌ c) (append-nil s)

pub append_assoc : (s t u : String) → (s <> t) <> u ≡ s <> (t <> u)
append_assoc [] t u = refl
append_assoc (c ∷ s) t u = ap (◌∷◌ c) (append_assoc s t u)

pub len-append : (s t : String) → len (s <> t) ≡ len s + len t
len-append [] t = omega arith
len-append (c ∷ s) t = omega (arith, len-append s t)

pub ends_with-append : (p t : String) → ends_with (p <> t) t ≡ true
unfolding ends_with
ends_with-append [] [] = refl
ends_with-append [] (c ∷ t) = ground (arith, eq_iff (c ∷ t) (c ∷ t))
ends_with-append (c ∷ p) t = ground (arith, ends_with-append p t)

pub split_of_ends_with : (s t : String) → ends_with s t ≡ true → (p : String) × (s ≡ p <> t)
unfolding ends_with
split_of_ends_with [] t h = ([], (eq_iff [] t).0 h)
split_of_ends_with (c ∷ s) t h = elim (Bool-cases ((c ∷ s) == t)) [
  | inl same ↦ ([], (eq_iff (c ∷ s) t).0 same)
  | inr other ↦ let (p, e) = split_of_ends_with s t (ground arith) in (c ∷ p, ap (◌∷◌ c) e)
]

-- s.endswith(t) holds exactly when s is some text followed by t.
pub ends_with_iff : (s t : String) → (ends_with s t ≡ true) ↔ ((p : String) × (s ≡ p <> t))
ends_with_iff s t = (split_of_ends_with s t, λ h. rw h.1 (ends_with-append h.0 t))

-- no text is a longer text followed by itself
pub append-ne : (p t : String) (c : Char) → t ≡ p <> (c ∷ t) → ⊥
append-ne p t c h = omega (arith, ap len h, len-append p (c ∷ t))

lstrip-all :
    (p q : Char → Bool) (s : String) → all_chars q s ≡ true → all_chars q (lstrip p s) ≡ true
unfolding lstrip
lstrip-all p q [] h = h
lstrip-all p q (c ∷ s) h = ground (arith, lstrip-all p q s)

keep_end-all :
    (p q : Char → Bool) (c : Char) (s : String)
    → q c ≡ true
    → all_chars q s ≡ true
    → all_chars q (keep_end p c s) ≡ true
unfolding keep_end
keep_end-all p q c [] hc h = elim (Bool-cases (p c)) [
  | inl e ↦ rw (e, keep_end) refl
  | inr e ↦ rw (e, keep_end) (ground arith)
]
keep_end-all p q c (d ∷ s) hc h = ground arith

rstrip-all :
    (p q : Char → Bool) (s : String) → all_chars q s ≡ true → all_chars q (rstrip p s) ≡ true
unfolding rstrip
rstrip-all p q [] h = h
rstrip-all p q (c ∷ s) h =
    keep_end-all p q c (rstrip p s) (ground arith) (rstrip-all p q s (ground arith))

-- What all characters of a text have, those that strip leaves have.
pub strip-all :
    (p q : Char → Bool) (s : String) → all_chars q s ≡ true → all_chars q (strip p s) ≡ true
unfolding strip
strip-all p q s h = lstrip-all p q (rstrip p s) (rstrip-all p q s h)
