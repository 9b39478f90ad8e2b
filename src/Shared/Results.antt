-- ===== src/Shared/Results.antt =====
-- Results of code that returns an error, and `do` blocks over them.
use mathlib.Core.Path.{◌≡◌, refl}
use mathlib.Core.Logic.{◌⊎◌, ◌↔◌, inl, inr}
use mathlib.Core.List.{List, [], ◌∷◌, ◌++◌}
use freeradius_k8s_operator.Shared.Lists.{All}

pub data Result {ℓ κ} (E : Type ℓ) (A : Type κ) : Type (ℓ ⊔ κ) where
  ok : A → Result E A
  err : E → Result E A

-- The result of code that returns a Go `error` alone: `ok tt` is nil.
abbrev pub Check : Type 0 → Type 0
Check E = Result E (Unit {0})

infixl 5 ◌>>=◌ ◌>>◌
abbrev pub ◌>>=◌ {ℓ κ μ} :
    {E : Type ℓ} {A : Type κ} {B : Type μ} → Result E A → (A → Result E B) → Result E B
ok a >>= f = f a
err e >>= f = err e

abbrev pub ◌>>◌ {ℓ κ} : {E : Type ℓ} {B : Type κ} → Result E (Unit {0}) → Result E B → Result E B
ok _ >> k = k
err e >> k = err e

-- `fmt.Errorf("…: %w", err)`
abbrev pub map_err {ℓ κ μ} :
    {E : Type ℓ} {F : Type κ} {A : Type μ} → (E → F) → Result E A → Result F A
map_err f (ok a) = ok a
map_err f (err e) = err (f e)

-- A loop that returns the first error.
abbrev pub each {ℓ κ} :
    {E : Type ℓ} {A : Type κ} → (A → Result E (Unit {0})) → List A → Result E (Unit {0})
each f [] = ok tt
each f (x ∷ xs) = f x >> each f xs

pub Result-cases {ℓ κ} :
    {E : Type ℓ} {A : Type κ} (r : Result E A) → ((a : A) × (r ≡ ok a)) ⊎ ((e : E) × (r ≡ err e))
Result-cases (ok a) = inl (a, refl)
Result-cases (err e) = inr (e, refl)

pub >>-eq-ok {ℓ κ} :
    {E : Type ℓ} {B : Type κ} (m : Result E (Unit {0})) (k : Result E B) {b : B}
    → (m >> k) ≡ ok b
    → (m ≡ ok tt) × (k ≡ ok b)
>>-eq-ok (ok tt) k h = (refl, h)
>>-eq-ok (err e) k h = cc

-- A chain succeeds only if its first part does, and the second does with that value.
pub >>=-eq-ok {ℓ κ μ} :
    {E : Type ℓ} {A : Type κ} {B : Type μ} (first : Result E A) (next : A → Result E B) {out : B}
    → (first >>= next) ≡ ok out
    → (mid : A) × (first ≡ ok mid) × (next mid ≡ ok out)
>>=-eq-ok (ok mid) next h = (mid, refl, h)
>>=-eq-ok (err e) next h = cc

pub map_err-eq-ok {ℓ κ μ} :
    {E : Type ℓ} {F : Type κ} {A : Type μ} (f : E → F) (r : Result E A) {a : A}
    → map_err f r ≡ ok a
    → r ≡ ok a
map_err-eq-ok f (ok a) h = cc
map_err-eq-ok f (err e) h = cc

-- A loop of checks passes exactly when every check does.
pub each-eq-ok {ℓ κ} :
    {E : Type ℓ} {A : Type κ} (f : A → Result E (Unit {0})) (xs : List A)
    → (each f xs ≡ ok tt) ↔ All (λ x. f x ≡ ok tt) xs
each-eq-ok f [] = (λ h. tt, λ h. refl)
each-eq-ok f (x ∷ xs) = (
  λ h. let (a, b) = >>-eq-ok (f x) (each f xs) h in (a, (each-eq-ok f xs).0 b),
  λ (a, b). rw a ((each-eq-ok f xs).1 b),
)

-- The first check that fails decides the error.
pub each-eq-err {ℓ κ} :
    {E : Type ℓ} {A : Type κ} (f : A → Result E (Unit {0})) (before : List A) (x : A)
    (after : List A) {e : E}
    → All (λ y. f y ≡ ok tt) before
    → f x ≡ err e
    → each f (before ++ x ∷ after) ≡ err e
each-eq-err f [] x after h k = rw k
each-eq-err f (y ∷ before) x after (p, h) k = rw p (each-eq-err f before x after h k)

pub >>-of_ok {ℓ κ} :
    {E : Type ℓ} {B : Type κ} (m : Result E (Unit {0})) (k : Result E B) → m ≡ ok tt → (m >> k) ≡ k
>>-of_ok (ok tt) k h = refl
>>-of_ok (err e) k h = cc

-- A sequence fails with the error of one of its two parts.
pub >>-eq-err {ℓ κ} :
    {E : Type ℓ} {B : Type κ} (m : Result E (Unit {0})) (k : Result E B) {e : E}
    → (m >> k) ≡ err e
    → (m ≡ err e) ⊎ (k ≡ err e)
>>-eq-err (ok tt) k h = inr h
>>-eq-err (err d) k h = inl cc

-- What holds of the errors of each check holds of the errors of the loop.
pub each-err {ℓ κ μ} :
    {E : Type ℓ} {A : Type κ} (P : E → Type μ) (f : A → Result E (Unit {0}))
    → ((a : A) (e : E) → f a ≡ err e → P e)
    → (xs : List A) (e : E) → each f xs ≡ err e
    → P e
each-err P f h [] e k = cc
each-err P f h (x ∷ xs) e k = elim (>>-eq-err (f x) (each f xs) k) [
  | inl a ↦ h x e a
  | inr b ↦ each-err P f h xs e b
]
