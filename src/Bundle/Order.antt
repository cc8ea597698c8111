-- ===== src/Bundle/Order.antt =====
-- The comparison of versions with releases is consistent, so lists of bundles can be sorted by it.
use operator_controller.Prelude.{◌≡◌, ◌≢◌, [], ◌∷◌, gt, refl}
use operator_controller.Order.{swap, IsPreorder, lex-IsPreorder, on-IsPreorder}
use operator_controller.Externals.{Externals, ExternalLaws}
use operator_controller.Bundle.{Release, as_pre, release_compare, version_release_compare}

module _ (x : Externals) (laws : ExternalLaws x) where
  flip_release : (a b : Release x) → release_compare x b a ≡ swap (release_compare x a b)
  unfolding release_compare
  flip_release [] [] = laws.compare-IsPreorder.flip _ _
  flip_release [] (_ ∷ _) = refl
  flip_release (_ ∷ _) [] = refl
  flip_release (a ∷ as') (b ∷ bs) =
      laws.compare-IsPreorder.flip (as_pre x (a ∷ as')) (as_pre x (b ∷ bs))

  trans_release :
      (a b c : Release x)
      → release_compare x a b ≢ gt
      → release_compare x b c ≢ gt
      → release_compare x a c ≢ gt
  unfolding release_compare
  trans_release [] [] [] h k = h
  trans_release [] [] (_ ∷ _) h k = k
  trans_release [] (_ ∷ _) [] h k = absurd (k refl)
  trans_release [] (_ ∷ _) (_ ∷ _) h k = h
  trans_release (_ ∷ _) [] c h k = absurd (h refl)
  trans_release (_ ∷ _) (_ ∷ _) [] h k = k
  trans_release (a ∷ r) (b ∷ s) (c ∷ t) h k =
      laws.compare-IsPreorder.trans (as_pre x (a ∷ r)) (as_pre x (b ∷ s)) (as_pre x (c ∷ t)) h k

  pub release_compare-IsPreorder : IsPreorder (release_compare x)
  release_compare-IsPreorder = record { flip = flip_release; trans = trans_release }

  -- Comparing by version and then by release is consistent: exchanging the arguments turns the
  -- result round, and the order is transitive, if the order of semantic versions is.
  pub version_release_compare-IsPreorder : IsPreorder (version_release_compare x)
  unfolding version_release_compare
  version_release_compare-IsPreorder =
      lex-IsPreorder (λ a b. x.compare a.version b.version)
        (λ a b. release_compare x a.release b.release)
        (on-IsPreorder x.compare (λ a. a.version) laws.compare-IsPreorder)
        (on-IsPreorder (release_compare x) (λ a. a.release) release_compare-IsPreorder)
