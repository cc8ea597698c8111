-- ===== src/Exec.antt =====
-- Code that changes an object and calls the API server: state passing with an error, where the
-- state reached before an error stays.
pub mod Keeps
pub mod Leads
pub mod Succeeds
use operator_controller.Prelude.{Result, ok, err}

abbrev pub Exec : Type 0 → Type 0 → Type 0 → Type 0
Exec S E A = S → Result E A × S

infixl 5 ◌>>=◌ ◌>>◌
abbrev pub bind_with : {S E A B : Type 0} → Result E A → S → (A → Exec S E B) → Result E B × S
bind_with (ok a) s f = f a s
bind_with (err e) s f = (err e, s)

unfoldable pub ◌>>=◌ : {S E A B : Type 0} → Exec S E A → (A → Exec S E B) → Exec S E B
◌>>=◌ m f s = bind_with (m s).0 (m s).1 f

abbrev pub ◌>>◌ : {S E A B : Type 0} → Exec S E A → Exec S E B → Exec S E B
m >> n = m >>= λ _. n

unfoldable pub pure : {S E A : Type 0} → A → Exec S E A
pure a s = (ok a, s)

unfoldable pub raise : {S E A : Type 0} → E → Exec S E A
raise e s = (err e, s)

-- `if err := call(); err != nil { fix(err); return wrap(err) }`
abbrev pub fail_with : {S E F A : Type 0} → Result E A → S → (E → S → S) → (E → F) → Result F A × S
fail_with (ok a) s fix wrap = (ok a, s)
fail_with (err e) s fix wrap = (err (wrap e), fix e s)

unfoldable pub or_fail : {S E F A : Type 0} → Exec S E A → (E → S → S) → (E → F) → Exec S F A
or_fail m fix wrap s = fail_with (m s).0 (m s).1 fix wrap

abbrev pub or_wrap : {S E F A : Type 0} → Exec S E A → (E → F) → Exec S F A
or_wrap m wrap = or_fail m (λ e s. s) wrap
