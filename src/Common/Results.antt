-- ===== src/Common/Results.antt =====
-- Results of code that ends the program on an error.
use mathlib.Core.Path.{◌≡◌, refl}
use mathlib.Core.Option.{Option, none, some}

pub data Result {ℓ κ} (Error : Type κ) (A : Type ℓ) : Type (ℓ ⊔ κ) where
  done : A → Result Error A
  failed : Error → Result Error A

infixl 5 ◌>>=◌ ◌>>◌
-- A failure ends the calls that would follow.
abbrev pub ◌>>=◌ {ℓ κ μ} :
    {Error : Type μ} {A : Type ℓ} {B : Type κ}
    → Result Error A
    → (A → Result Error B)
    → Result Error B
failed e >>= continue = failed e
done a >>= continue = continue a

abbrev pub ◌>>◌ {ℓ κ μ} :
    {Error : Type μ} {A : Type ℓ} {B : Type κ} → Result Error A → Result Error B → Result Error B
first >> second = first >>= λ a. second

abbrev pub need {ℓ μ} : {Error : Type μ} {A : Type ℓ} → Option A → Error → Result Error A
need none e = failed e
need (some a) e = done a

-- Inversion of a step that succeeded.
pub >>=-eq-done {ℓ κ μ} :
    {Error : Type μ} {A : Type ℓ} {B : Type κ} (first : Result Error A)
    (continue : A → Result Error B) {b : B}
    → (first >>= continue) ≡ done b
    → (a : A) × (first ≡ done a) × (continue a ≡ done b)
>>=-eq-done (done a) continue h = (a, refl, h)
>>=-eq-done (failed e) continue h = cc

pub need-eq-done {ℓ μ} :
    {Error : Type μ} {A : Type ℓ} (o : Option A) (e : Error) {a : A}
    → need o e ≡ done a
    → o ≡ some a
need-eq-done (some b) e h = cc
need-eq-done none e h = cc

pub done-injective {ℓ μ} :
    {Error : Type μ} {A : Type ℓ} {a b : A} → ◌≡◌ {A = Result Error A} (done a) (done b) → a ≡ b
done-injective h = cc
