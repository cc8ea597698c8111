-- ===== src/Exec/Succeeds.antt =====
-- An action that returns a value: its parts returned values too, and each went on from the state of
-- the one before.
use operator_controller.Prelude.{◌≡◌, refl, ap, sym, ok_injective, ok-ne-err, Result, ok, err}
use operator_controller.Exec.{Exec, ◌>>=◌, or_fail, bind_with, fail_with}

module _ {S E A B : Type 0} where
  bound :
      (r : Result E A) (s : S) (f : A → Exec S E B) (b : B)
      → (bind_with r s f).0 ≡ ok b
      → (a : A) × (r ≡ ok a) × (bind_with r s f ≡ f a s)
  bound (ok a) s f b h = (a, refl, refl)
  bound (err e) s f b h = absurd (ok-ne-err b e (sym h))

  pub bind-ok :
      (m : Exec S E A) (f : A → Exec S E B) (s : S) (b : B)
      → ((m >>= f) s).0 ≡ ok b
      → (a : A) × ((m s).0 ≡ ok a) × ((m >>= f) s ≡ f a (m s).1)
  unfolding ◌>>=◌
  bind-ok m f s b h = bound (m s).0 (m s).1 f b h

module _ {S E F A : Type 0} where
  passed :
      (r : Result E A) (s : S) (fix : E → S → S) (wrap : E → F) (a : A)
      → (fail_with r s fix wrap).0 ≡ ok a
      → (r ≡ ok a) × (fail_with r s fix wrap ≡ (ok a, s))
  passed (ok b) s fix wrap a h = let e = ok_injective h in (ap ok e, ap (λ (x : A). (ok x, s)) e)
  passed (err e) s fix wrap a h = absurd (ok-ne-err a (wrap e) (sym h))

  pub or_fail-ok :
      (m : Exec S E A) (fix : E → S → S) (wrap : E → F) (s : S) (a : A)
      → (or_fail m fix wrap s).0 ≡ ok a
      → ((m s).0 ≡ ok a) × (or_fail m fix wrap s ≡ (ok a, (m s).1))
  unfolding or_fail
  or_fail-ok m fix wrap s a h = passed (m s).0 (m s).1 fix wrap a h
