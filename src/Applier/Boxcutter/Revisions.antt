-- ===== src/Applier/Boxcutter/Revisions.antt =====
-- The helpers of boxcutter.go on the revision that is to be applied.
use operator_controller.Prelude.{
  ℕ, suc, String, List, [], ◌∷◌, ◌++◌, Option, none, some, ℤ, pos, negsuc, zero, if◌then◌else◌,
  eq_ℤ, Ordering, ltb_ℤ, lt, eq, gt,
}
use operator_controller.ObjectSet.{ObjectSourceRef, SpecObject, SpecPhase}
use operator_controller.Sort.{sort_stable}
use operator_controller.Applier.Packer.{Position, lookup_ref}
use operator_controller.Applier.Boxcutter.{Existing, ApplyObject, ApplyPhase, Desired}

-- `cmp.Compare` on `int64`
abbrev pub compare_ℤ : ℤ → ℤ → Ordering
compare_ℤ a b = if ltb_ℤ a b then lt else if ltb_ℤ b a then gt else eq

abbrev pub by_revision : Existing → Existing → Ordering
by_revision a b = compare_ℤ a.revision b.revision

-- `slices.SortFunc`, which need not be stable: revision numbers of an extension are distinct
unfoldable pub sort_revisions : List Existing → List Existing
sort_revisions items = sort_stable by_revision items

-- `items[len(items)-1]`
unfoldable pub last_revision : List Existing → Option Existing
last_revision [] = none
last_revision (r ∷ []) = some r
last_revision (_ ∷ r ∷ rs) = last_revision (r ∷ rs)

abbrev pub revision_of : Option Existing → ℤ
revision_of none = pos 0
revision_of (some r) = r.revision

unfoldable pub latest_revision_number : List Existing → ℤ
latest_revision_number prev = revision_of (last_revision prev)

-- the sum of an `int64` and 1
abbrev pub max_int64 : ℤ
max_int64 = pos 9223372036854775807

abbrev pub plus_one : ℤ → ℤ
plus_one (pos n) = pos (suc n)
plus_one (negsuc zero) = pos 0
plus_one (negsuc (suc n)) = negsuc n

unfoldable pub increment : ℤ → ℤ
increment n = if eq_ℤ n max_int64 then negsuc 9223372036854775807 else plus_one n

abbrev pub text_of : Option String → String
text_of none = ""
text_of (some s) = s

abbrev pub zero_ref : ObjectSourceRef
zero_ref = record { name = ""; namespace = ""; key = "" }

module _ {O : Type 0} where
  abbrev pub with_object : Option O → List O → List O
  with_object none more = more
  with_object (some o) more = o ∷ more

  abbrev pub objects_of_phase : List (ApplyObject O) → List O
  objects_of_phase [] = []
  objects_of_phase (a ∷ rest) = with_object a.object (objects_of_phase rest)

  abbrev pub get_phase_objects : List (ApplyPhase O) → List O
  get_phase_objects [] = []
  get_phase_objects (p ∷ ps) = objects_of_phase p.objects ++ get_phase_objects ps

  -- `getObjects`
  unfoldable pub get_objects : {R : Type 0} → Desired O R → List O
  get_objects rev = get_phase_objects rev.phases

  -- `saveInlineObjects`
  abbrev pub saved_objects : List (ApplyObject O) → List (Option O)
  saved_objects [] = []
  saved_objects (a ∷ rest) = a.object ∷ saved_objects rest

  abbrev pub saved_phases : List (ApplyPhase O) → List (List (Option O))
  saved_phases [] = []
  saved_phases (p ∷ ps) = saved_objects p.objects ∷ saved_phases ps

  unfoldable pub save_inline_objects : {R : Type 0} → Desired O R → List (List (Option O))
  save_inline_objects rev = saved_phases rev.phases

  -- `restoreInlineObjects`
  abbrev pub restored_objects : List (ApplyObject O) → List (Option O) → List (ApplyObject O)
  restored_objects (a ∷ rest) (o ∷ saved) =
      record a { object = o; ref = none } ∷ restored_objects rest saved
  restored_objects [] _ = []
  restored_objects (a ∷ rest) [] = a ∷ rest

  abbrev pub restored_phases : List (ApplyPhase O) → List (List (Option O)) → List (ApplyPhase O)
  restored_phases (p ∷ ps) (s ∷ saved) =
      record p { objects = restored_objects p.objects s } ∷ restored_phases ps saved
  restored_phases [] _ = []
  restored_phases (p ∷ ps) [] = p ∷ ps

  unfoldable pub restore_inline_objects :
      {R : Type 0} → Desired O R → List (List (Option O)) → Desired O R
  restore_inline_objects rev saved = record rev { phases = restored_phases rev.phases saved }

  -- `extractPhasesForPacking`
  abbrev pub packing_objects : List (ApplyObject O) → List (SpecObject O)
  packing_objects [] = []
  packing_objects (a ∷ rest) =
      record {
        object = a.object;
        ref = zero_ref;
        collision_protection = text_of a.collision_protection;
      }
      ∷ packing_objects rest

  unfoldable pub extract_phases_for_packing : List (ApplyPhase O) → List (SpecPhase O)
  extract_phases_for_packing [] = []
  extract_phases_for_packing (p ∷ ps) =
      record {
        name = text_of p.name;
        objects = packing_objects p.objects;
        collision_protection = "";
      }
      ∷ extract_phases_for_packing ps

  -- `replaceInlineWithRefs`
  abbrev pub replaced : ApplyObject O → Option ObjectSourceRef → ApplyObject O
  replaced a none = a
  replaced a (some ref) = record a { object = none; ref = some ref }

  abbrev pub replaced_objects :
      List (Position × ObjectSourceRef) → ℕ → ℕ → List (ApplyObject O) → List (ApplyObject O)
  replaced_objects refs i j [] = []
  replaced_objects refs i j (a ∷ rest) =
      replaced a (lookup_ref (i, j) refs) ∷ replaced_objects refs i (suc j) rest

  abbrev pub replaced_phases :
      List (Position × ObjectSourceRef) → ℕ → List (ApplyPhase O) → List (ApplyPhase O)
  replaced_phases refs i [] = []
  replaced_phases refs i (p ∷ ps) =
      record p { objects = replaced_objects refs i 0 p.objects } ∷ replaced_phases refs (suc i) ps

  unfoldable pub replace_inline_with_refs :
      {R : Type 0} → Desired O R → List (Position × ObjectSourceRef) → Desired O R
  replace_inline_with_refs rev refs = record rev { phases = replaced_phases refs 0 rev.phases }
