-- ===== src/ObjectSet/Manifests.antt =====
-- The collision protection and the referenced content of an object.
use operator_controller.Prelude.{
  ℕ, ◌*◌, ◌+◌, ◌≤◌, ltb, ◌≡◌, refl, String, List, [], ◌∷◌, ◌++◌, some, true, false, ◌⊎◌, inl, inr,
  ◌∙◌, sym, ap, Bool-cases, Option-cases, ok, err, arith, if◌then◌else◌, ◌==◌, length, ok_injective,
  ok-ne-err,
}
use operator_controller.ObjectSet.{Platform, too_large}
use operator_controller.ObjectSet.Phases.{
  effective_collision_protection, decompress, max_decompressed_size, has_gzip_magic, collision_loop,
}

-- the first value that is set, or else the last resort
abbrev pub first_set : String → List String → String
first_set resort [] = resort
first_set resort (c ∷ cs) = if c == "" then first_set resort cs else c

abbrev pub reverse : List String → List String
reverse [] = []
reverse (c ∷ cs) = reverse cs ++ c ∷ []

first_set-last :
    (resort c : String) (cs : List String)
    → first_set resort (cs ++ c ∷ []) ≡ first_set (if c == "" then resort else c) cs
first_set-last resort c [] = refl
first_set-last resort c (d ∷ cs) = elim (Bool-cases (d == "")) [
  | inl e ↦ rw e (first_set-last resort c cs)
  | inr e ↦ rw e refl
]

loop-first_set :
    (ecp : String) (cps : List String) → collision_loop ecp cps ≡ first_set ecp (reverse cps)
unfolding collision_loop
loop-first_set ecp [] = refl
loop-first_set ecp (c ∷ cps) =
    loop-first_set (if c == "" then ecp else c) cps ∙ sym (first_set-last ecp c (reverse cps))

-- The effective collision protection is the innermost value that is set, and "Prevent" if none is.
pub effective_collision_protection-first_set :
    (cps : List String) → effective_collision_protection cps ≡ first_set "Prevent" (reverse cps)
unfolding effective_collision_protection
effective_collision_protection-first_set cps = loop-first_set "Prevent" cps

module _ (p : Platform) where
  open p.objects use {Stream, gzip_open, read_limited}

  kept :
      (read out : List ℕ)
      → (if ltb max_decompressed_size (length read) then err too_large else ok read) ≡ ok out
      → (read ≡ out) × (length out ≤ 10 * 1024 * 1024)
  kept read out h = elim (Bool-cases (ltb max_decompressed_size (length read))) [
    | inl e ↦ absurd (ok-ne-err out too_large (sym (rw e at h)))
    | inr e ↦ let o = ok_injective (rw e at h) in (o, rw (← o) (ground arith))
  ]

  -- Content that is decompressed without an error is what was stored, if that does not begin like
  -- gzip data; otherwise it is what was read from the gzip stream, and no more than 10 MiB of it.
  pub decompress-bounded :
      (bytes out : List ℕ)
      → decompress p bytes ≡ ok out
      → ((has_gzip_magic bytes ≡ false) × (out ≡ bytes))
        ⊎ ((stream : Stream) × (has_gzip_magic bytes ≡ true)
            × (gzip_open bytes ≡ some stream)
            × (read_limited stream (max_decompressed_size + 1) ≡ some out)
            × (length out ≤ 10 * 1024 * 1024))
  unfolding decompress
  decompress-bounded bytes out h = elim (Bool-cases (has_gzip_magic bytes)) [
    | inr e ↦ inl (e, sym (ok_injective (rw e at h)))
    | inl e ↦ elim (Option-cases (gzip_open bytes)) [
      | inl n ↦ absurd (ok-ne-err out _ (sym (rw n at (rw e at h))))
      | inr (stream, q) ↦ elim (Option-cases (read_limited stream (max_decompressed_size + 1))) [
        | inl n ↦ absurd (ok-ne-err out _ (sym (rw n at (rw q at (rw e at h)))))
        | inr (read, r) ↦
            let (o, l) = kept read out (rw r at (rw q at (rw e at h))) in
            inr (stream, e, q, r ∙ ap some o, l)
      ]
    ]
  ]
