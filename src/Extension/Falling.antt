-- ===== src/Extension/Falling.antt =====
-- When a failed resolution falls back to the bundle that is installed.
use operator_controller.Prelude.{
  String, ◌≡◌, refl, none, some, Bool, true, false, Result, ok, err, ◌⊎◌, inl, inr, Bool-cases,
  Result-cases, Option-cases, not, ◌&&◌, ◌==◌, eq_iff, arith,
}
use operator_controller.Exec.{◌>>=◌, pure, raise}
use operator_controller.Extension.{
  ExtensionError, ExtensionApi, RevisionMetadata, RevisionStates, Reconciling, Ending, on_ext,
  on_state, the_ext,
}
use operator_controller.Extension.Steps.{
  CatalogAnswer, check_catalogs_exist, handle_resolution_error, spec_version,
}

module _ (a : ExtensionApi) where
  -- What makes a fallback: something is installed, no other version is asked for, and there are no
  -- catalogs.
  pub record IsFallback (valid : String → Bool) (answer : CatalogAnswer) (states : RevisionStates a)
      (s t : Reconciling a) : Type 0 where
    pub installed : RevisionMetadata a
    pub is_installed : states.installed ≡ some installed
    pub same_version :
        (spec_version a s.ext.catalog ≡ "")
        ⊎ (spec_version a s.ext.catalog ≡ installed.bundle.version)
    pub no_catalogs : check_catalogs_exist a valid answer s.ext ≡ ok false
    pub resolved : t.state.resolved_revision ≡ some installed

  -- The two outcomes: a fallback, after which the steps go on, or the error.
  abbrev pub IsDecision :
      (String → Bool)
      → CatalogAnswer
      → RevisionStates a
      → ExtensionError
      → Reconciling a
      → Result ExtensionError Ending
      → Reconciling a
      → Type 0
  IsDecision valid answer states e s (ok r) t = (r ≡ none) × IsFallback valid answer states s t
  IsDecision valid answer states e s (err f) t = f ≡ e

  same_or_empty : (v w : String) → (not (v == "") && not (v == w)) ≡ false → (v ≡ "") ⊎ (v ≡ w)
  same_or_empty v w h = elim (Bool-cases (v == "")) [
    | inl e ↦ inl ((eq_iff v "").0 e)
    | inr e ↦ elim (Bool-cases (v == w)) [
      | inl f ↦ inr ((eq_iff v w).0 f)
      | inr f ↦ absurd (ground arith)
    ]
  ]

  -- A failed resolution falls back to the installed bundle only if there is one, the extension asks
  -- for no other version and no catalogs exist; otherwise the error of the resolution is returned.
  pub handle_resolution_error-IsDecision :
      (valid : String → Bool) (answer : CatalogAnswer) (states : RevisionStates a)
      (e : ExtensionError) (s : Reconciling a)
      → IsDecision valid answer states e s
          (handle_resolution_error a valid answer states e s).0
          (handle_resolution_error a valid answer states e s).1
  unfolding handle_resolution_error ◌>>=◌ pure raise on_ext on_state the_ext
  handle_resolution_error-IsDecision valid answer states e s =
      elim (Option-cases states.installed) [
        | inl n ↦ rw n refl
        | inr (installed, i) ↦
            elim (Bool-cases (
              not (spec_version a s.ext.catalog == "")
              && not (spec_version a s.ext.catalog == installed.bundle.version))) [
                | inl differs ↦ rw i (rw differs refl)
                | inr same ↦ elim (Result-cases (check_catalogs_exist a valid answer s.ext)) [
                  | inr (f, q) ↦ rw i (rw same (rw q refl))
                  | inl (true, q) ↦ rw i (rw same (rw q refl))
                  | inl (false, q) ↦ rw i (
                      rw same (
                        rw q (
                          refl,
                          record {
                            installed = installed;
                            is_installed = refl;
                            same_version = same_or_empty _ _ same;
                            no_catalogs = q;
                            resolved = refl;
                          },
                        )))
                ]
              ]
      ]
