-- ===== src/Base/Result.antt =====
-- `Result` of Rust, its `do` blocks and the early return with an error.
use mathlib.Core.Path.{◌≡◌, refl}
use mathlib.Core.Bool.{Bool, true, false}

pub data Result {ℓ κ} (E : Type ℓ) (A : Type κ) : Type (ℓ ⊔ κ) where
  ok : A → Result E A
  err : E → Result E A

infixl 5 ◌>>=◌ ◌>>◌
abbrev pub ◌>>=◌ {ℓ κ μ} :
    {E : Type ℓ} {A : Type κ} {B : Type μ} → Result E A → (A → Result E B) → Result E B
ok a >>= f = f a
err e >>= f = err e

abbrev pub ◌>>◌ {ℓ μ} : {E : Type ℓ} {B : Type μ} → Result E (Unit {0}) → Result E B → Result E B
m >> k = m >>= λ _. k

abbrev pub guard {ℓ} : {E : Type ℓ} → Bool → E → Result E (Unit {0})
guard true e = ok tt
guard false e = err e

-- A chain that succeeds went through each of its parts.
pub >>=-eq-ok {ℓ κ μ} :
    {E : Type ℓ} {A : Type κ} {B : Type μ} {result : B} (first : Result E A) (next : A → Result E B)
    → (first >>= next) ≡ ok result
    → (value : A) × (first ≡ ok value) × (next value ≡ ok result)
>>=-eq-ok (err e) next ran = cc
>>=-eq-ok (ok value) next ran = (value, refl, ran)

pub guard-eq-ok {ℓ} :
    {E : Type ℓ} (test : Bool) (e : E) {u : Unit {0}} → guard test e ≡ ok u → test ≡ true
guard-eq-ok true e ran = refl
guard-eq-ok false e ran = cc

-- A predicate on what a computation returns, where it does.
abbrev pub OnOk {ℓ κ μ} : {E : Type ℓ} {A : Type κ} → (A → Type μ) → Result E A → Type μ
OnOk P (ok a) = P a
OnOk P (err e) = Unit

-- A predicate holds of what a chain returns if it does for every value that its first part gives.
pub >>=-OnOk {ℓ κ μ ν} :
    {E : Type ℓ} {A : Type κ} {B : Type μ} (P : B → Type ν) (first : Result E A)
    (next : A → Result E B)
    → ((value : A) → first ≡ ok value → OnOk P (next value))
    → OnOk P (first >>= next)
>>=-OnOk P (ok value) next holds = holds value refl
>>=-OnOk P (err e) next holds = tt

pub guard-OnOk {ℓ μ ν} :
    {E : Type ℓ} {B : Type μ} (P : B → Type ν) (test : Bool) (e : E) (next : Result E B)
    → (test ≡ true → OnOk P next)
    → OnOk P (guard test e >> next)
guard-OnOk P true e next holds = holds refl
guard-OnOk P false e next holds = tt
