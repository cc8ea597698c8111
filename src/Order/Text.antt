-- ===== src/Order/Text.antt =====
-- `cmp.Compare` on strings: by bytes, which for UTF-8 is the order of the code points.
use Prim.Native.Char.{Char, code}
use Prim.Native.Nat
use Prim.Native.String
use operator_controller.Prelude.{◌≡◌, ◌≢◌, refl, String, lt, gt, arith}
use operator_controller.Order.{swap, IsPreorder}

cons_cons :
    (c d : Char) (s t : String)
    → String.compare (String.◌∷◌ c s) (String.◌∷◌ d t)
      ≡ String.then (Nat.compare (code c) (code d)) (String.compare s t)
cons_cons c d s t = λ i. String.compare.cons-cons c d s t i

nil_cons : (d : Char) (t : String) → String.compare String.[] (String.◌∷◌ d t) ≡ lt
nil_cons d t = λ i. String.compare.nil-cons d t i

cons_nil : (c : Char) (s : String) → String.compare (String.◌∷◌ c s) String.[] ≡ gt
cons_nil c s = λ i. String.compare.cons-nil c s i

compare_flip : (s t : String) → String.compare t s ≡ swap (String.compare s t)
compare_flip String.[] String.[] = refl
compare_flip String.[] (String.◌∷◌ d t) = ground (arith, nil_cons d t, cons_nil d t)
compare_flip (String.◌∷◌ c s) String.[] = ground (arith, nil_cons c s, cons_nil c s)
compare_flip (String.◌∷◌ c s) (String.◌∷◌ d t) =
    ground (arith, compare_flip s t, cons_cons c d s t, cons_cons d c t s)

compare_trans :
    (s t u : String) → String.compare s t ≢ gt → String.compare t u ≢ gt → String.compare s u ≢ gt
compare_trans String.[] t String.[] h k = ground arith
compare_trans String.[] t (String.◌∷◌ e u) h k = ground (arith, nil_cons e u)
compare_trans (String.◌∷◌ c s) String.[] u h k = absurd (h (cons_nil c s))
compare_trans (String.◌∷◌ c s) (String.◌∷◌ d t) String.[] h k = absurd (k (cons_nil d t))
compare_trans (String.◌∷◌ c s) (String.◌∷◌ d t) (String.◌∷◌ e u) h k =
    ground (arith, compare_trans s t u, cons_cons c d s t, cons_cons d e t u, cons_cons c e s u)

pub compare-IsPreorder : IsPreorder String.compare
compare-IsPreorder = record { flip = compare_flip; trans = compare_trans }
