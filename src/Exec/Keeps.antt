-- ===== src/Exec/Keeps.antt =====
-- Predicates on the state that an action keeps, whether it returns a value or an error: one rule
-- for each way to build an action.
use operator_controller.Prelude.{◌≡◌, refl, Bool, true, false, Result, ok, err, if◌then◌else◌}
use operator_controller.Exec.{Exec, ◌>>=◌, pure, raise, or_fail, bind_with, fail_with}

pub record Keeps {S E A : Type 0} (P : S → Type 0) (m : Exec S E A) : Type 0 where
  pub at : (s : S) → P s → P (m s).1

module _ {S E A : Type 0} {Inv : S → Type 0} where
  pub Keeps-if :
      (test : Bool) (yes_part no_part : Exec S E A)
      → Keeps Inv yes_part
      → Keeps Inv no_part
      → Keeps Inv (if test then yes_part else no_part)
  Keeps-if false yes_part no_part y n = n
  Keeps-if true yes_part no_part y n = y

  pub Keeps-raise : (reason : E) → Keeps Inv (raise {A = A} reason)
  unfolding raise
  Keeps-raise reason = record { at = λ _ holds. holds }

  pub Keeps-pure : (value : A) → Keeps Inv (pure {E = E} value)
  unfolding pure
  Keeps-pure value = record { at = λ _ holds. holds }

module _ {S E A B : Type 0} {P : S → Type 0} where
  bind_cases :
      (r : Result E A) (s : S) (f : A → Exec S E B)
      → P s
      → ((a : A) → Keeps P (f a))
      → P (bind_with r s f).1
  bind_cases (ok a) s f h k = (k a).at s h
  bind_cases (err e) s f h k = h

  pub Keeps-bind :
      (m : Exec S E A) (f : A → Exec S E B)
      → Keeps P m
      → ((a : A) → Keeps P (f a))
      → Keeps P (m >>= f)
  unfolding ◌>>=◌
  Keeps-bind m f km kf = record { at = λ s h. bind_cases (m s).0 (m s).1 f (km.at s h) kf }

  bind_value :
      (r : Result E A) (s : S) (f : A → Exec S E B)
      → P s
      → ((a : A) → r ≡ ok a → Keeps P (f a))
      → P (bind_with r s f).1
  bind_value (ok a) s f h k = (k a refl).at s h
  bind_value (err e) s f h k = h

  -- the same in one state, where the rest may use the value
  pub Keeps-bind_at :
      (m : Exec S E A) (f : A → Exec S E B) (s : S)
      → P (m s).1
      → ((a : A) → (m s).0 ≡ ok a → Keeps P (f a))
      → P ((m >>= f) s).1
  unfolding ◌>>=◌
  Keeps-bind_at m f s h k = bind_value (m s).0 (m s).1 f h k

module _ {S E F A : Type 0} {P : S → Type 0} where
  fail_cases :
      (r : Result E A) (s : S) (fix : E → S → S) (wrap : E → F)
      → P s
      → ((e : E) (t : S) → P t → P (fix e t))
      → P (fail_with r s fix wrap).1
  fail_cases (ok a) s fix wrap h k = h
  fail_cases (err e) s fix wrap h k = k e s h

  pub Keeps-or_fail :
      (m : Exec S E A) (fix : E → S → S) (wrap : E → F)
      → Keeps P m
      → ((e : E) (t : S) → P t → P (fix e t))
      → Keeps P (or_fail m fix wrap)
  unfolding or_fail
  Keeps-or_fail m fix wrap km kf = record {
    at = λ s h. fail_cases (m s).0 (m s).1 fix wrap (km.at s h) kf;
  }

pub ruleset keeps_rules = (Keeps-pure, Keeps-raise, Keeps-if, Keeps-bind, Keeps-or_fail)
