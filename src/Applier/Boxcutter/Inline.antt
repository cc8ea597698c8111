-- ===== src/Applier/Boxcutter/Inline.antt =====
-- The inline objects of a revision, replaced by references and put back.
use operator_controller.Prelude.{ℕ, suc, ◌≡◌, refl, sym, List, [], ◌∷◌, Option, none, some}
use operator_controller.ObjectSet.{ObjectSourceRef}
use operator_controller.Applier.Packer.{Position, lookup_ref}
use operator_controller.Applier.Boxcutter.{ApplyObject, ApplyPhase, Desired}
use operator_controller.Applier.Boxcutter.Revisions.{
  replaced, replaced_objects, replaced_phases, restored_objects, restored_phases, saved_objects,
  saved_phases, save_inline_objects, restore_inline_objects, replace_inline_with_refs,
}

module _ {O : Type 0} where
  -- None of the objects is a reference.
  abbrev pub AreInline : List (ApplyObject O) → Type 0
  AreInline [] = Unit
  AreInline (a ∷ rest) = (a.ref ≡ none) × AreInline rest

  abbrev pub PhasesAreInline : List (ApplyPhase O) → Type 0
  PhasesAreInline [] = Unit
  PhasesAreInline (p ∷ ps) = AreInline p.objects × PhasesAreInline ps

  restored-object :
      (a : ApplyObject O) (r : Option ObjectSourceRef)
      → a.ref ≡ none
      → ◌≡◌ {A = ApplyObject O} (record (replaced a r) { object = a.object; ref = none }) a
  restored-object a none h = λ i. record a { ref = sym h i }
  restored-object a (some r) h = λ i. record a { ref = sym h i }

  restored-objects :
      (refs : List (Position × ObjectSourceRef)) (i j : ℕ) (objs : List (ApplyObject O))
      → AreInline objs
      → restored_objects (replaced_objects refs i j objs) (saved_objects objs) ≡ objs
  restored-objects refs i j [] h = refl
  restored-objects refs i j (a ∷ rest) h =
      let head = restored-object a (lookup_ref (i, j) refs) h.0 in
      let tail = restored-objects refs i (suc j) rest h.1 in λ k. head k ∷ tail k

  restored-phases :
      (refs : List (Position × ObjectSourceRef)) (i : ℕ) (phases : List (ApplyPhase O))
      → PhasesAreInline phases
      → restored_phases (replaced_phases refs i phases) (saved_phases phases) ≡ phases
  restored-phases refs i [] h = refl
  restored-phases refs i (p ∷ ps) h =
      let head = restored-objects refs i 0 p.objects h.0 in
      let tail = restored-phases refs (suc i) ps h.1 in λ k. record p { objects = head k } ∷ tail k

  -- Restoring the saved objects undoes the replacement by references, whatever references were put
  -- in, if the revision had none before.
  pub restore_inline_objects-replace_inline_with_refs :
      {R : Type 0} (rev : Desired O R) (refs : List (Position × ObjectSourceRef))
      → PhasesAreInline rev.phases
      → restore_inline_objects (replace_inline_with_refs rev refs) (save_inline_objects rev) ≡ rev
  unfolding restore_inline_objects replace_inline_with_refs save_inline_objects
  restore_inline_objects-replace_inline_with_refs rev refs h =
      let phases = restored-phases refs 0 rev.phases h in λ k. record rev { phases = phases k }
