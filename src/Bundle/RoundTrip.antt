-- ===== src/Bundle/RoundTrip.antt =====
-- A release is read from the build metadata of a version, and can be written back.
use operator_controller.Prelude.{
  ℕ, suc, String, ◌≡◌, refl, sym, ap, ◌∙◌, List, [], ◌∷◌, ◌++◌, map, some, Result, ok, err, split,
  join, join-split, subst, ok_injective, ◌==◌, eq_iff, Bool-cases, inl, inr, Option-cases,
}
use mathlib.Core.List.{append-nil, append_assoc, map-append}
use operator_controller.Externals.{Version, Externals, ExternalLaws}
use operator_controller.Bundle.{
  Release, VersionRelease, release_loop, unless_errors, new_release, with_release,
  new_legacy_registry_v1_version_release, as_legacy_registry_v1_version,
}

module _ (x : Externals) (laws : ExternalLaws x) where
  open x use {pr_string}

  -- the errors that were found stay
  loop_errors :
      (i : ℕ) (segments : List String) (r : Release x) (e : ℕ) (errs : List ℕ) (rel : Release x)
      → unless_errors x (release_loop x i segments r (e ∷ errs)) ≡ ok rel
      → ⊥
  unfolding release_loop
  loop_errors i [] r e errs rel h = cc
  loop_errors i (s ∷ ss) r e errs rel h = elim (Option-cases (x.new_pr_version s)) [
    | inl n ↦ loop_errors (suc i) ss r e (errs ++ i ∷ []) rel (rw (n, release_loop) at h)
    | inr (p, n) ↦ loop_errors (suc i) ss (r ++ p ∷ []) e errs rel (rw (n, release_loop) at h)
  ]

  loop-pr_string :
      (i : ℕ) (segments : List String) (r rel : Release x)
      → unless_errors x (release_loop x i segments r []) ≡ ok rel
      → map pr_string rel ≡ map pr_string r ++ segments
  unfolding release_loop
  loop-pr_string i [] r rel h = cc (append-nil (map x.pr_string r))
  loop-pr_string i (s ∷ ss) r rel h = elim (Option-cases (x.new_pr_version s)) [
    | inl n ↦ absurd (loop_errors (suc i) ss r i [] rel (rw (n, release_loop) at h))
    | inr (p, n) ↦
        let ih = loop-pr_string (suc i) ss (r ++ p ∷ []) rel (rw (n, release_loop) at h) in
        ih
        ∙ (ap (λ (l : List String). l ++ ss) (map-append x.pr_string r (p ∷ []))
            ∙ (append_assoc (map x.pr_string r) (x.pr_string p ∷ []) ss
                ∙ ap (λ (q : String). map x.pr_string r ++ q ∷ ss)
                    (laws.pr_string-new_pr_version s p n)))
  ]

  -- The segments of a release that was read, written with dots between them, are the text that it
  -- was read from.
  pub join-new_release :
      (s : String) (rel : Release x) → new_release x s ≡ ok rel → join "." (map x.pr_string rel) ≡ s
  unfolding new_release
  join-new_release s rel h = elim (Bool-cases (s == "")) [
    | inl e ↦
        subst (λ (r : Release x). join "." (map x.pr_string r) ≡ s) (ok_injective (rw e at h))
          (unfold join in sym ((eq_iff s "").0 e))
    | inr e ↦ ap (join ".") (loop-pr_string 0 (split "." s) [] rel (rw e at h)) ∙ join-split "." s
  ]

  build-with_release :
      (v : Version x.PrVersion) (r : Result (List ℕ) (Release x))
      → new_release x (join "." v.build) ≡ r
      → join "." (as_legacy_registry_v1_version x (with_release x v r)).build ≡ join "." v.build
  unfolding as_legacy_registry_v1_version
  build-with_release v (err _) h = refl
  build-with_release v (ok []) h = join-new_release _ [] h
  build-with_release v (ok (p ∷ ps)) h = join-new_release _ (p ∷ ps) h

  fields-with_release :
      (v : Version x.PrVersion) (r : Result (List ℕ) (Release x))
      → let w = as_legacy_registry_v1_version x (with_release x v r) in
        w ≡ record v { build = w.build }
  unfolding as_legacy_registry_v1_version
  fields-with_release v (err _) = refl
  fields-with_release v (ok _) = refl

  -- Reading a legacy bundle version and writing it as a version again gives the numbers, the
  -- pre-release and the dotted build metadata of the version that was parsed, whether the build
  -- metadata was a release or not.
  pub as_legacy-new_legacy :
      (s : String) (v : Version x.PrVersion) (vr : VersionRelease x)
      → x.parse s ≡ some v
      → new_legacy_registry_v1_version_release x s ≡ ok vr
      → let w = as_legacy_registry_v1_version x vr in
        (w ≡ record v { build = w.build }) × (join "." w.build ≡ join "." v.build)
  unfolding new_legacy_registry_v1_version_release
  as_legacy-new_legacy s v vr e h =
      subst
        (λ (r : VersionRelease x).
          let w = as_legacy_registry_v1_version x r in
          (w ≡ record v { build = w.build }) × (join "." w.build ≡ join "." v.build))
        (ok_injective (rw (e, new_legacy_registry_v1_version_release) at h))
        (
          fields-with_release v (new_release x (join "." v.build)),
          build-with_release v (new_release x (join "." v.build)) refl,
        )
