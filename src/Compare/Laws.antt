-- ===== src/Compare/Laws.antt =====
-- The orders of bundles are consistent, so sorting by them is well defined.
use operator_controller.Prelude.{◌≡◌, ◌≢◌, refl, gt, Result, ok, err, arith, contains}
use operator_controller.Order.{swap, IsPreorder, on-IsPreorder}
use operator_controller.Externals.{Externals, ExternalLaws}
use operator_controller.Bundle.{VersionError, VersionRelease, get_version_and_release, Bundle}
use operator_controller.Bundle.Order.{version_release_compare-IsPreorder}
use operator_controller.Catalog.{Deprecation}
use operator_controller.Compare.{
  by_results, by_version_and_release, deprecated_bundles, compare_flags, by_deprecation,
}

compare_flags-IsPreorder : IsPreorder compare_flags
unfolding compare_flags
compare_flags-IsPreorder = record { flip = λ a b. ground arith; trans = λ a b c h k. ground arith }

pub by_deprecation-IsPreorder : (d : Deprecation) → IsPreorder (by_deprecation d)
unfolding by_deprecation
by_deprecation-IsPreorder d =
    on-IsPreorder compare_flags (λ (b : Bundle). contains b.name (deprecated_bundles d.entries))
      compare_flags-IsPreorder

module _ (x : Externals) (laws : ExternalLaws x) where
  flip_results :
      (a b : Result VersionError (VersionRelease x)) → by_results x b a ≡ swap (by_results x a b)
  unfolding by_results
  flip_results (ok a) (ok b) = (version_release_compare-IsPreorder x laws).flip b a
  flip_results (ok a) (err b) = refl
  flip_results (err a) (ok b) = refl
  flip_results (err a) (err b) = refl

  trans_results :
      (a b c : Result VersionError (VersionRelease x))
      → by_results x a b ≢ gt
      → by_results x b c ≢ gt
      → by_results x a c ≢ gt
  unfolding by_results
  trans_results (ok a) (ok b) (ok c) h k =
      (version_release_compare-IsPreorder x laws).trans c b a k h
  trans_results (ok a) (ok b) (err c) h k = k
  trans_results (ok a) (err b) (ok c) h k = absurd (k refl)
  trans_results (ok a) (err b) (err c) h k = h
  trans_results (err a) (ok b) c h k = absurd (h refl)
  trans_results (err a) (err b) (ok c) h k = k
  trans_results (err a) (err b) (err c) h k = h

  -- The order of bundles by version and release is consistent also where versions are missing or
  -- invalid: exchanging the bundles turns the result round, and the order is transitive.
  pub by_version_and_release-IsPreorder : IsPreorder (by_version_and_release x)
  unfolding by_version_and_release
  by_version_and_release-IsPreorder =
      on-IsPreorder (by_results x) (get_version_and_release x)
        (record { flip = flip_results; trans = trans_results })
