-- ===== src/Exec/Leads.antt =====
-- What holds behind an action that began where another predicate held: by its outcome (`Leads`), and
-- whatever the outcome is (`Ends`).
use operator_controller.Prelude.{◌≡◌, refl, Bool, true, false, Result, ok, err, if◌then◌else◌}
use operator_controller.Exec.{Exec, ◌>>=◌, or_fail, bind_with, fail_with}
use operator_controller.Exec.Keeps.{Keeps}

-- `Q` behind a value, `R` behind an error
abbrev pub Behind : {S E A : Type 0} → (S → Type 0) → (S → Type 0) → Result E A → S → Type 0
Behind Q R (ok a) s = Q s
Behind Q R (err e) s = R s

pub record Leads {S E A : Type 0} (P Q R : S → Type 0) (m : Exec S E A) : Type 0 where
  pub at : (s : S) → P s → Behind Q R (m s).0 (m s).1

pub record Ends {S E A : Type 0} (P R : S → Type 0) (m : Exec S E A) : Type 0 where
  pub at : (s : S) → P s → R (m s).1

module _ {S E A : Type 0} {P Q R : S → Type 0} where
  pub Ends-Keeps :
      (m : Exec S E A) → ((s : S) → P s → Q s) → ((s : S) → Q s → R s) → Keeps Q m → Ends P R m
  Ends-Keeps m f g k = record { at = λ s h. g (m s).1 (k.at s (f s h)) }

module _ {S E A : Type 0} {P R : S → Type 0} where
  pub Ends-if :
      (test : Bool) (m n : Exec S E A) → Ends P R m → Ends P R n → Ends P R (if test then m else n)
  Ends-if true m n km kn = km
  Ends-if false m n km kn = kn

  from_keeps : (r : Result E A) (s : S) → ((s : S) → P s → R s) → P s → Behind P R r s
  from_keeps (ok a) s f h = h
  from_keeps (err e) s f h = f s h

  pub Leads-Keeps : (m : Exec S E A) → ((s : S) → P s → R s) → Keeps P m → Leads P P R m
  Leads-Keeps m f k = record { at = λ s h. from_keeps (m s).0 (m s).1 f (k.at s h) }

module _ {S E A B : Type 0} {Q R : S → Type 0} where
  bind-Behind :
      (r : Result E A) (s : S) (f : A → Exec S E B)
      → Behind Q R r s
      → ((a : A) → Ends Q R (f a))
      → R (bind_with r s f).1
  bind-Behind (ok a) s f h k = (k a).at s h
  bind-Behind (err e) s f h k = h

  pub Ends-bind :
      {P : S → Type 0} (m : Exec S E A) (f : A → Exec S E B)
      → Leads P Q R m
      → ((a : A) → Ends Q R (f a))
      → Ends P R (m >>= f)
  unfolding ◌>>=◌
  Ends-bind m f km kf = record { at = λ s h. bind-Behind (m s).0 (m s).1 f (km.at s h) kf }

module _ {S E F A : Type 0} {R : S → Type 0} where
  fail-Behind :
      (Q : S → Type 0) (r : Result E A) (s : S) (fix : E → S → S) (wrap : E → F)
      → Behind Q R r s
      → ((e : E) (t : S) → R t → R (fix e t))
      → Behind Q R (fail_with r s fix wrap).0 (fail_with r s fix wrap).1
  fail-Behind Q (ok a) s fix wrap h k = h
  fail-Behind Q (err e) s fix wrap h k = k e s h

  pub Leads-or_fail :
      {P Q : S → Type 0} (m : Exec S E A) (fix : E → S → S) (wrap : E → F)
      → Leads P Q R m
      → ((e : E) (t : S) → R t → R (fix e t))
      → Leads P Q R (or_fail m fix wrap)
  unfolding or_fail
  Leads-or_fail {Q = Q} m fix wrap km kf = record {
    at = λ s h. fail-Behind Q (m s).0 (m s).1 fix wrap (km.at s h) kf;
  }

module _ {S E A B : Type 0} {Q T R : S → Type 0} where
  value-Behind :
      (r : Result E A) (s : S) (f : A → Exec S E B)
      → Behind Q R r s
      → ((a : A) → r ≡ ok a → Leads Q T R (f a))
      → Behind T R (bind_with r s f).0 (bind_with r s f).1
  value-Behind (ok a) s f h k = (k a refl).at s h
  value-Behind (err e) s f h k = h

  -- in one state, where the rest may use the value
  pub Behind-bind :
      (m : Exec S E A) (f : A → Exec S E B) (s : S)
      → Behind Q R (m s).0 (m s).1
      → ((a : A) → (m s).0 ≡ ok a → Leads Q T R (f a))
      → Behind T R ((m >>= f) s).0 ((m >>= f) s).1
  unfolding ◌>>=◌
  Behind-bind m f s h k = value-Behind (m s).0 (m s).1 f h k

  pub Leads-bind :
      {P : S → Type 0} (m : Exec S E A) (f : A → Exec S E B)
      → Leads P Q R m
      → ((a : A) → Leads Q T R (f a))
      → Leads P T R (m >>= f)
  Leads-bind m f km kf = record { at = λ s h. Behind-bind m f s (km.at s h) (λ a _. kf a) }
