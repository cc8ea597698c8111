-- ===== src/ObjectSet/Conditions.antt =====
-- The functions of clusterobjectset_controller.go that set status conditions.
use operator_controller.Prelude.{String, Option, none, some, Bool, ◌||◌}
use operator_controller.Kube.{Condition, ConditionStatus, is_true, is_false, is_unknown}
use operator_controller.ObjectSet.{
  Platform, Cos, Message, text, type_available, type_progressing, type_succeeded,
}

module _ (p : Platform) where
  abbrev pub set_condition : Cos p → String → ConditionStatus → String → Message → Cos p × Bool
  set_condition cos kind status reason message =
      let (cs, changed) = p.conditions.set cos.conditions (record {
        kind = kind;
        status = status;
        reason = reason;
        message = message;
        observed_generation = cos.generation;
      }) in
      (record cos { conditions = cs }, changed)

  abbrev pub find_condition : Cos p → String → Option (Condition Message)
  find_condition cos kind = p.conditions.find cos.conditions kind

  unfoldable pub mark_as_progressing : String → Message → Cos p → Cos p
  mark_as_progressing reason message cos =
      (set_condition cos type_progressing is_true reason message).0

  unfoldable pub mark_as_not_progressing : String → Message → Cos p → Cos p × Bool
  mark_as_not_progressing reason message cos =
      set_condition cos type_progressing is_false reason message

  unfoldable pub mark_as_available : String → Message → Cos p → Cos p
  mark_as_available reason message cos = (set_condition cos type_available is_true reason message).0

  unfoldable pub mark_as_unavailable : String → Message → Cos p → Cos p
  mark_as_unavailable reason message cos =
      (set_condition cos type_available is_false reason message).0

  unfoldable pub mark_as_available_unknown : String → Message → Cos p → Cos p × Bool
  mark_as_available_unknown reason message cos =
      set_condition cos type_available is_unknown reason message

  abbrev when_present : Option (Condition Message) → Cos p → Cos p → Cos p
  when_present none kept marked = kept
  when_present (some _) kept marked = marked

  unfoldable pub set_retrying_conditions : Message → Cos p → Cos p
  unfolding mark_as_progressing mark_as_available_unknown
  set_retrying_conditions message cos =
      let retrying = mark_as_progressing "Retrying" message cos in
      when_present (find_condition retrying type_available) retrying
        (mark_as_available_unknown "Reconciling" message retrying).0

  unfoldable pub mark_as_archived : Cos p → Cos p × Bool
  unfolding mark_as_not_progressing mark_as_available_unknown
  mark_as_archived cos =
      let (stopped, updated) =
        mark_as_not_progressing "Archived" (text "revision is archived") cos in
      let (unknown, changed) =
        mark_as_available_unknown "Archived" (text "revision is archived") stopped in
      (unknown, changed || updated)

  -- the condition that a completed rollout sets
  unfoldable pub mark_as_succeeded : Cos p → Cos p
  mark_as_succeeded cos =
      (set_condition cos type_succeeded is_true "Succeeded"
        (text "Revision succeeded rolling out.")).0
