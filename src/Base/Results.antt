-- ===== src/Base/Results.antt =====
-- Code that may raise: a value or the exception, with `do` over it.
use mathlib.Core.Path.{◌≡◌, refl, subst}
use mathlib.Core.Logic.{◌⊎◌, inl, inr}
use mathlib.Core.Option.{Option, none, some}
use mathlib.Core.List.{List, [], ◌∷◌}
use mathlib.Core.Bool.{Bool, true, false}
use native.Mathlib.Omega.{arith}
use bugbounty_agent.Base.Lists.{All}
use bugbounty_agent.Base.Tests.{if◌then◌else◌}

pub data Result {ℓ} (E A : Type ℓ) : Type ℓ where
  err : E → Result E A
  ok : A → Result E A

-- raise e unless the test holds
abbrev pub guard : {E : Type 0} → Bool → E → Result E Unit
guard holds e = if holds then ok tt else err e

infixl 5 ◌>>=◌ ◌>>◌
abbrev pub ◌>>=◌ {ℓ} : {E A B : Type ℓ} → Result E A → (A → Result E B) → Result E B
err raised >>= rest = err raised
ok value >>= rest = rest value

abbrev pub ◌>>◌ {ℓ} : {E A B : Type ℓ} → Result E A → Result E B → Result E B
first >> second = first >>= λ _. second

-- the value that a library call returned, or the exception for the one that it raised
abbrev pub expect : {E A : Type 0} → E → Option A → Result E A
expect e none = err e
expect e (some a) = ok a

-- [f(x) for x in xs], where f may raise
unfoldable pub traverse : {E A B : Type 0} → (A → Result E B) → List A → Result E (List B)
traverse f [] = ok []
traverse f (x ∷ xs) = do y ← f x; ys ← traverse f xs; ok (y ∷ ys)

pub >>=-eq-ok {ℓ} :
    {E A B : Type ℓ} (m : Result E A) (rest : A → Result E B) {b : B}
    → (m >>= rest) ≡ ok b
    → (a : A) × (m ≡ ok a) × (rest a ≡ ok b)
>>=-eq-ok (err raised) rest h = cc
>>=-eq-ok (ok value) rest h = (value, refl, h)

pub Result-cases {ℓ} :
    {E A : Type ℓ} (r : Result E A) → ((a : A) × (r ≡ ok a)) ⊎ ((e : E) × (r ≡ err e))
Result-cases (ok a) = inl (a, refl)
Result-cases (err e) = inr (e, refl)

pub guard-eq-ok : {E : Type 0} (b : Bool) (e : E) {u : Unit {0}} → guard b e ≡ ok u → b ≡ true
guard-eq-ok true e h = refl
guard-eq-ok false e h = cc

-- What every result of f has, every element of a traversal has.
pub traverse-All :
    {E A B : Type 0} (P : B → Type 0) (f : A → Result E B)
    → ((x : A) (y : B) → f x ≡ ok y → P y)
    → (xs : List A) {ys : List B} → traverse f xs ≡ ok ys
    → All P ys
unfolding traverse
traverse-All P f h [] e = ground arith
traverse-All P f h (x ∷ xs) {ys} e =
    let (y, here, more) = >>=-eq-ok (f x) _ e in
    let (zs, rest, last) = >>=-eq-ok (traverse f xs) _ more in
    let same : y ∷ zs ≡ ys = cc last in
    subst (λ l. All P l) same (h x y here, traverse-All P f h xs rest)

pub if-eq-ok :
    {E A : Type 0} (b : Bool) (x y : Result E A) {a : A}
    → (if b then x else y) ≡ ok a
    → ((b ≡ true) × (x ≡ ok a)) ⊎ ((b ≡ false) × (y ≡ ok a))
if-eq-ok true x y h = inl (refl, h)
if-eq-ok false x y h = inr (refl, h)

pub ok_inj {ℓ} : {E A : Type ℓ} {a b : A} → ◌≡◌ {A = Result E A} (ok a) (ok b) → a ≡ b
ok_inj e = cc e

-- What a call returns, if it returns, has the property.
abbrev pub Ensures {ℓ κ} : {E A : Type ℓ} → (A → Type κ) → Result E A → Type κ
Ensures P (err e) = Unit
Ensures P (ok a) = P a

pub Ensures-ok {ℓ κ} :
    {E A : Type ℓ} (P : A → Type κ) (r : Result E A) {a : A} → Ensures P r → r ≡ ok a → P a
Ensures-ok P (err e) p h = cc h
Ensures-ok P (ok a) p h = subst P (ok_inj h) p

-- The rest of a block ensures P if it does so on every value that has what its first call ensures.
pub >>=-Ensures {ℓ κ μ} :
    {E A B : Type ℓ} (Q : A → Type κ) (P : B → Type μ) (m : Result E A) (rest : A → Result E B)
    → Ensures Q m
    → ((a : A) → Q a → Ensures P (rest a))
    → Ensures P (m >>= rest)
>>=-Ensures Q P (err e) rest q h = tt
>>=-Ensures Q P (ok a) rest q h = h a q

-- The rest of a block ensures P if it does so on every value.
pub any-Ensures {ℓ μ} :
    {E A B : Type ℓ} (P : B → Type μ) (m : Result E A) (rest : A → Result E B)
    → ((a : A) → Ensures P (rest a))
    → Ensures P (m >>= rest)
any-Ensures P (err e) rest h = tt
any-Ensures P (ok a) rest h = h a

pub if-Ensures {ℓ κ} :
    {E A : Type ℓ} (P : A → Type κ) (b : Bool) (x y : Result E A)
    → Ensures P x
    → Ensures P y
    → Ensures P (if b then x else y)
if-Ensures P true x y hx hy = hx
if-Ensures P false x y hx hy = hy

pub Ensures-map {ℓ κ μ} :
    {E A : Type ℓ} (Q : A → Type κ) (P : A → Type μ) (r : Result E A)
    → ((a : A) → Q a → P a)
    → Ensures Q r
    → Ensures P r
Ensures-map Q P (err e) f q = tt
Ensures-map Q P (ok a) f q = f a q

pub Ensures-all {ℓ μ} :
    {E A : Type ℓ} (P : A → Type μ) (r : Result E A) → ((a : A) → P a) → Ensures P r
Ensures-all P (err e) f = tt
Ensures-all P (ok a) f = f a
