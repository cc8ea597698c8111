-- ===== src/Prelude/Outcome.antt =====
-- Go's `(T, error)`: a value or an error, with the early return of `if err != nil`.
use mathlib.Core.Path.{◌≡◌, refl}
use mathlib.Core.Logic.{◌⊎◌, inl, inr}

pub data Result {ℓ} (E A : Type ℓ) : Type ℓ where
  ok : A → Result E A
  err : E → Result E A

module _ {ℓ} {E A B : Type ℓ} where
  infixl 5 ◌>>=◌ ◌>>◌
  abbrev pub ◌>>=◌ : Result E A → (A → Result E B) → Result E B
  err reason >>= next = err reason
  ok value >>= next = next value

  abbrev pub ◌>>◌ : Result E A → Result E B → Result E B
  first >> second = first >>= λ _. second

  -- a chain that ends in a value: where it passed
  pub >>=-eq-ok :
      (before : Result E A) (next : A → Result E B) {last : B}
      → (before >>= next) ≡ ok last
      → (middle : A) × (before ≡ ok middle) × (next middle ≡ ok last)
  >>=-eq-ok (err reason) next e = cc
  >>=-eq-ok (ok middle) next e = (middle, refl, e)

  -- and where it failed
  pub >>=-eq-err :
      (before : Result E A) (next : A → Result E B) {reason : E}
      → (before >>= next) ≡ err reason
      → (before ≡ err reason) ⊎ ((middle : A) × (before ≡ ok middle) × (next middle ≡ err reason))
  >>=-eq-err (err e) next h = inl cc
  >>=-eq-err (ok middle) next h = inr (middle, refl, h)

pub ok_injective {ℓ} : {E A : Type ℓ} {a b : A} → ◌≡◌ {A = Result E A} (ok a) (ok b) → a ≡ b
ok_injective h = cc

-- A result that is known to be a value is no error.
pub ok-ne-err {ℓ} : {E A : Type ℓ} (a : A) (e : E) → ◌≡◌ {A = Result E A} (ok a) (err e) → ⊥
ok-ne-err a e h = cc

pub Result-cases {ℓ} :
    {E A : Type ℓ} (r : Result E A) → ((a : A) × (r ≡ ok a)) ⊎ ((e : E) × (r ≡ err e))
Result-cases (ok a) = inl (a, refl)
Result-cases (err e) = inr (e, refl)

-- A step that cannot fail joins the step behind it.
pub >>=-ok {ℓ} :
    {E A B C : Type ℓ} (m : Result E A) (g : A → B) (f : B → Result E C)
    → ((m >>= λ a. ok (g a)) >>= f) ≡ (m >>= λ a. f (g a))
>>=-ok (ok a) g f = refl
>>=-ok (err e) g f = refl
