-- ===== src/Prelude/Text.antt =====
-- `strings.Split` and `strings.Join` of Go's library, for a separator of one character.
use Prim.Native.Char.{Char}
use Prim.Native.String
use Prim.Native.String.{String}
use mathlib.Core.Path.{◌≡◌, refl, ap, ◌∙◌, sym}
use mathlib.Core.Logic.{inl, inr}
use mathlib.Core.List.{List, [], ◌∷◌}
use text.Mathlib.Text.{◌==◌}
use text.Mathlib.TextEquality.{eq_iff}
use text.Mathlib.TextLemmas.{nil-append, cons-append}
use operator_controller.Prelude.Tests.{if◌then◌else◌, Bool-cases}

-- the character goes in front of the first piece
abbrev pub cons_first : Char → List String → List String
cons_first c [] = (String.◌∷◌ c String.[]) ∷ []
cons_first c (s ∷ ss) = (String.◌∷◌ c s) ∷ ss

unfoldable pub split : String → String → List String
split sep String.[] = String.[] ∷ []
split sep (String.◌∷◌ c s) =
    if String.◌∷◌ c String.[] == sep then String.[] ∷ split sep s else cons_first c (split sep s)

unfoldable pub join : String → List String → String
join sep [] = String.[]
join sep (s ∷ []) = s
join sep (s ∷ t ∷ ss) = String.◌++◌ s (String.◌++◌ sep (join sep (t ∷ ss)))

join-cons_first :
    (sep : String) (c : Char) (ss : List String)
    → join sep (cons_first c ss) ≡ String.◌∷◌ c (join sep ss)
unfolding join
join-cons_first sep c [] = refl
join-cons_first sep c (s ∷ []) = refl
join-cons_first sep c (s ∷ t ∷ ss) = cons-append c s (String.◌++◌ sep (join sep (t ∷ ss)))

join-nil_cons_first :
    (sep : String) (c : Char) (ss : List String)
    → join sep (String.[] ∷ cons_first c ss) ≡ String.◌++◌ sep (join sep (cons_first c ss))
unfolding join
join-nil_cons_first sep c [] = nil-append _
join-nil_cons_first sep c (x ∷ ss) = nil-append _

join-nil-split :
    (sep s : String) → join sep (String.[] ∷ split sep s) ≡ String.◌++◌ sep (join sep (split sep s))
unfolding split
join-nil-split sep String.[] = unfold join in nil-append _
join-nil-split sep (String.◌∷◌ d s) = elim (Bool-cases (String.◌∷◌ d String.[] == sep)) [
  | inl e ↦ rw e (unfold join in nil-append _)
  | inr e ↦ rw e (join-nil_cons_first sep d (split sep s))
]

-- The pieces joined again are the text.
pub join-split : (sep s : String) → join sep (split sep s) ≡ s
unfolding split
join-split sep String.[] = unfold join in refl
join-split sep (String.◌∷◌ c s) = elim (Bool-cases (String.◌∷◌ c String.[] == sep)) [
  | inl e ↦ rw e (
      join-nil-split sep s
      ∙ (ap (String.◌++◌ sep) (join-split sep s)
          ∙ (ap (λ (t : String). String.◌++◌ t s) (sym ((eq_iff (String.◌∷◌ c String.[]) sep).0 e))
              ∙ (cons-append c String.[] s ∙ ap (String.◌∷◌ c) (nil-append s)))))
  | inr e ↦ rw e (join-cons_first sep c (split sep s) ∙ ap (String.◌∷◌ c) (join-split sep s))
]
