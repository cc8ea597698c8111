-- ===== src/ObjectSet/Phases.antt =====
-- The functions of clusterobjectset_controller.go that list revisions and build the phases and
-- options that are handed to the revision engine.
use operator_controller.Exec.{◌>>=◌, ◌>>◌, pure, raise, or_wrap}
use operator_controller.Prelude.{
  ℕ, ltb, nat_eq, ltb_ℤ, String, List, [], ◌∷◌, ◌++◌, map, Option, none, some, Bool, false, ◌&&◌,
  ◌||◌, not, Result, ok, err, ◌==◌, if◌then◌else◌, length, ◌*◌, ◌+◌, contains,
}
use operator_controller.ObjectSet.{
  Platform, Cos, Cluster, Step, call, ObjectSourceRef, SpecObject, SpecPhase, ProgressionProbe,
  RefError, getting_secret, key_not_found, bad_gzip, decompressing, too_large, unmarshaling,
  BuildError, listing_previous, unknown_assertion, unknown_selector, invalid_selector,
  resolving_ref, neither, Phase, list_revisions, get_secret, OwnerReference, state_archived,
}

-- `EffectiveCollisionProtection`: the last value that is set, from the outermost to the innermost
unfoldable pub collision_loop : String → List String → String
collision_loop ecp [] = ecp
collision_loop ecp (c ∷ cs) = collision_loop (if c == "" then ecp else c) cs

unfoldable pub effective_collision_protection : List String → String
unfolding collision_loop
effective_collision_protection cps = collision_loop "Prevent" cps

-- `foreignRevisionController`: the loop over the owner references
unfoldable pub foreign_revision_controller :
    List OwnerReference → List String → Option OwnerReference
foreign_revision_controller [] siblings = none
foreign_revision_controller (ref ∷ refs) siblings =
    let rest = foreign_revision_controller refs siblings in
    if elim ref.controller [ none ↦ false | some b ↦ b ]
      && (ref.kind == "ClusterObjectSet"
          && (ref.api_version == "olm.operatorframework.io/v1" && not (contains ref.name siblings)))
    then some ref
    else rest

-- the assertions of one probe
unfoldable pub check_assertions : List String → Result BuildError Unit
check_assertions [] = ok tt
check_assertions (a ∷ as') =
    let rest = check_assertions as' in
    if a == "ConditionEqual" || (a == "FieldsEqual" || a == "FieldValue")
    then rest
    else err (unknown_assertion a)

abbrev check_selector : ProgressionProbe → Result BuildError Unit
check_selector probe =
    if probe.selector == "GroupKind"
    then ok tt
    else if probe.selector == "Label"
    then (if probe.valid_label_selector then ok tt else err invalid_selector)
    else err (unknown_selector probe.selector)

abbrev both : Result BuildError Unit → Result BuildError Unit → Result BuildError Unit
both (ok _) r = r
both (err e) r = err e

-- `buildProgressionProbes`: the probes, or the first that is not valid
unfoldable pub build_progression_probes : List ProgressionProbe → Result BuildError Unit
build_progression_probes [] = ok tt
build_progression_probes (probe ∷ probes) =
    let rest = build_progression_probes probes in
    both (both (check_assertions probe.assertions) (check_selector probe)) rest

abbrev pub max_decompressed_size : ℕ
max_decompressed_size = 10 * 1024 * 1024

abbrev pub has_gzip_magic : List ℕ → Bool
has_gzip_magic (a ∷ b ∷ _) = nat_eq a 0x1f && nat_eq b 0x8b
has_gzip_magic _ = false

module _ (p : Platform) where
  open p.objects use {Object, Stream, gvk, set_label, gzip_open, read_limited, unmarshal}

  abbrev within_size : Option (List ℕ) → Result RefError (List ℕ)
  within_size none = err decompressing
  within_size (some bytes) =
      if ltb max_decompressed_size (length bytes) then err too_large else ok bytes

  abbrev read_gzip : Option Stream → Result RefError (List ℕ)
  read_gzip none = err bad_gzip
  read_gzip (some stream) = within_size (read_limited stream (max_decompressed_size + 1))

  -- the value of a secret, decompressed if it begins like gzip data
  unfoldable pub decompress : List ℕ → Result RefError (List ℕ)
  decompress bytes = if has_gzip_magic bytes then read_gzip (gzip_open bytes) else ok bytes

  abbrev pub parse_object : Result RefError (List ℕ) → Result RefError Object
  parse_object (err e) = err e
  parse_object (ok bytes) = elim (unmarshal bytes) [ none ↦ err unmarshaling | some o ↦ ok o ]

  abbrev pub of_value : String → Option (List ℕ) → Result RefError Object
  of_value key none = err (key_not_found key)
  of_value key (some bytes) = parse_object (decompress bytes)

  unfoldable pub lift : {E A : Type 0} → Result E A → Step p E A
  lift r s = (r, s)

  module _ (cl : Cluster p) where
    unfoldable pub resolve_object_ref : ObjectSourceRef → Step p RefError Object
    resolve_object_ref ref = do
      secret ← or_wrap (call p (get_secret ref.namespace ref.name) cl.on_secret) getting_secret
      lift (of_value ref.key (secret ref.key))

    abbrev pub is_previous : Cos p → Cos p → Bool
    is_previous cos r =
        not (r.name == cos.name)
        && (not (r.lifecycle_state == state_archived || r.deleting)
            && ltb_ℤ r.revision cos.revision)

    unfoldable pub previous_of : Cos p → List (Cos p) → List (Cos p)
    previous_of cos [] = []
    previous_of cos (r ∷ rs) =
        let rest = previous_of cos rs in if is_previous cos r then r ∷ rest else rest

    unfoldable pub list_of_owner : Cos p → Option String → Step p String (List (Cos p))
    list_of_owner cos none = pure []
    list_of_owner cos (some owner) = do
      items ← call p (list_revisions owner) cl.on_list
      pure (previous_of cos items)

    unfoldable pub list_previous_revisions : Cos p → Step p String (List (Cos p))
    list_previous_revisions cos = list_of_owner cos cos.owner

    unfoldable pub names_of_owner : Option String → Step p String (Option (List String))
    names_of_owner none = pure none
    names_of_owner (some owner) = do
      items ← call p (list_revisions owner) cl.on_list
      pure (some (map (λ (r : Cos p). r.name) items))

    -- `siblingRevisionNames`: `nil` without an owner label
    unfoldable pub sibling_revision_names : Cos p → Step p String (Option (List String))
    sibling_revision_names cos = names_of_owner cos.owner

    unfoldable pub manifest_of : String → ObjectSourceRef → Option Object → Step p BuildError Object
    manifest_of phase ref (some o) = pure o
    manifest_of phase ref none =
        if ref.name == ""
        then raise (neither phase)
        else or_wrap (resolve_object_ref ref) (resolving_ref phase)

    -- the manifest of an object: inline, or by reference
    unfoldable pub object_of : String → SpecObject Object → Step p BuildError Object
    object_of phase spec = manifest_of phase spec.ref spec.object

    abbrev owner_label : Cos p → String
    owner_label cos = elim cos.owner [ none ↦ "" | some o ↦ o ]

    -- the option for an object whose effective protection is not the default
    abbrev protection_option :
        Cos p → SpecPhase Object → SpecObject Object → Object → List (Object × String)
    protection_option cos phase spec o =
        let cp = effective_collision_protection (
          cos.collision_protection ∷ phase.collision_protection ∷ spec.collision_protection ∷ []) in
        if cp == "IfNoController" || cp == "None" then (o, cp) ∷ [] else []

    unfoldable pub build_objects :
        Cos p
        → SpecPhase Object
        → List (SpecObject Object)
        → Step p BuildError (List Object × List (Object × String))
    build_objects cos phase [] = pure ([], [])
    build_objects cos phase (spec ∷ specs) = do
      o ← object_of phase.name spec
      (objs, opts) ← build_objects cos phase specs
      let labelled = set_label o "olm.operatorframework.io/owner-name" (owner_label cos)
      pure (labelled ∷ objs, protection_option cos phase spec labelled ++ opts)

    unfoldable pub build_phases :
        Cos p
        → List (SpecPhase Object)
        → Step p BuildError (List (Phase Object) × List (Object × String))
    build_phases cos [] = pure ([], [])
    build_phases cos (phase ∷ specs) = do
      (objs, opts) ← build_objects cos phase phase.objects
      (phases, more) ← build_phases cos specs
      pure (record { name = phase.name; objects = objs } ∷ phases, opts ++ more)

    -- `buildBoxcutterPhases`: the phases, the names of the previous owners and the options
    unfoldable pub build_boxcutter_phases :
        Cos p → Step p BuildError (List (Phase Object) × List String × List (Object × String))
    build_boxcutter_phases cos = do
      previous ← or_wrap (list_previous_revisions cos) listing_previous
      lift (build_progression_probes cos.progression_probes)
      (phases, opts) ← build_phases cos cos.phases
      pure (phases, map (λ (r : Cos p). r.name) previous, opts)
