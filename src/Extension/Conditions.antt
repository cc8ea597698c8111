-- ===== src/Extension/Conditions.antt =====
-- common_controller.go: the conditions Installed and Progressing, and messages that fit.
use operator_controller.Prelude.{
  ℕ, ◌-◌, String, List, [], ◌∷◌, ◌++◌, Option, none, some, Bool, if◌then◌else◌, ◌==◌, leb, length,
  take, contains,
}
use operator_controller.Kube.{Condition, ConditionStatus, is_true, is_false, is_unknown}
use operator_controller.Extension.{
  ErrorText, ExtensionError, plain, terminal, nil_pointer, MessageText, literal, of_error,
  installed_bundle, cause, for_bundle, ExtensionApi, RevisionMetadata, RevisionStates,
  ClusterExtension,
}
use operator_controller.Successors.{BundleMetadata}

abbrev pub max_condition_message_length : ℕ
max_condition_message_length = 32768

-- "\n\n... [message truncated]"
abbrev pub truncation_suffix : List ℕ
truncation_suffix =
    10 ∷ 10 ∷ 46 ∷ 46 ∷ 46 ∷ 32 ∷ 91 ∷ 109 ∷ 101 ∷ 115 ∷ 115 ∷ 97 ∷ 103 ∷ 101 ∷ 32 ∷ 116 ∷ 114 ∷ 117
    ∷ 110 ∷ 99 ∷ 97 ∷ 116 ∷ 101 ∷ 100 ∷ 93 ∷ []

unfoldable pub truncate_message : List ℕ → List ℕ
truncate_message message =
    if leb (length message) max_condition_message_length
    then message
    else take (max_condition_message_length - length truncation_suffix) message ++ truncation_suffix

abbrev pub type_installed : String
type_installed = "Installed"

abbrev pub type_progressing : String
type_progressing = "Progressing"

-- `conditionsets.ConditionTypes`
abbrev pub condition_types : List String
condition_types =
    "Installed" ∷ "Deprecated" ∷ "PackageDeprecated" ∷ "ChannelDeprecated" ∷ "BundleDeprecated"
    ∷ "Progressing" ∷ []

unfoldable pub is_deprecation_condition : String → Bool
is_deprecation_condition kind =
    contains kind
      ("Deprecated" ∷ "PackageDeprecated" ∷ "ChannelDeprecated" ∷ "BundleDeprecated" ∷ [])

-- `UnwrapTerminal`
abbrev pub text_of_error : ExtensionError → ErrorText
text_of_error (plain t) = t
text_of_error (terminal _ t) = t
text_of_error nil_pointer = cause "invalid memory address or nil pointer dereference"

-- `wrapErrorWithResolutionInfo`
unfoldable pub wrap_error_with_resolution_info : BundleMetadata → ExtensionError → ExtensionError
wrap_error_with_resolution_info b (plain t) = plain (for_bundle b t)
wrap_error_with_resolution_info b (terminal reason t) = terminal reason (for_bundle b t)
wrap_error_with_resolution_info b nil_pointer = nil_pointer

module _ (a : ExtensionApi) where
  open a.conditions use {find, set}

  -- `SetStatusCondition`
  unfoldable pub set_status_condition :
      String → ConditionStatus → String → MessageText → ClusterExtension a → ClusterExtension a
  set_status_condition kind status reason message ext = record ext {
    conditions =
        (set ext.conditions (record {
          kind = kind;
          status = status;
          reason = reason;
          message = truncate_message (a.render message);
          observed_generation = ext.generation;
        })).0;
  }

  -- the last of the rolling revisions
  abbrev pub last_rolling : List (RevisionMetadata a) → Option (RevisionMetadata a)
  last_rolling [] = none
  last_rolling (r ∷ []) = some r
  last_rolling (_ ∷ r ∷ rs) = last_rolling (r ∷ rs)

  abbrev reason_of : Option (Condition (List ℕ)) → String
  reason_of none = "Absent"
  reason_of (some c) = if c.reason == "Retrying" then "Failed" else "Absent"

  abbrev failure_reason : Option (RevisionMetadata a) → String
  failure_reason none = "Failed"
  failure_reason (some r) = reason_of (find r.conditions type_progressing)

  unfoldable pub determine_failure_reason : List (RevisionMetadata a) → String
  determine_failure_reason rolling = failure_reason (last_rolling rolling)

  abbrev with_installed :
      RevisionStates a → Option (RevisionMetadata a) → ClusterExtension a → ClusterExtension a
  with_installed states none ext =
      set_status_condition type_installed is_false (determine_failure_reason states.rolling_out)
        (literal "No bundle installed") (record ext { install = none })
  with_installed states (some r) ext =
      set_status_condition type_installed is_true "Succeeded" (installed_bundle r.image)
        (record ext { install = some r.bundle })

  unfoldable pub set_installed_status_from_revision_states :
      RevisionStates a → ClusterExtension a → ClusterExtension a
  set_installed_status_from_revision_states states ext = with_installed states states.installed ext

  unfoldable pub set_installed_status_condition_unknown :
      ErrorText → ClusterExtension a → ClusterExtension a
  set_installed_status_condition_unknown message ext =
      set_status_condition type_installed is_unknown "Failed" (of_error message) ext

  abbrev reason_or_blocked : Option String → String
  reason_or_blocked none = "Blocked"
  reason_or_blocked (some reason) = reason

  -- `setStatusProgressing`, with an error or none
  unfoldable pub set_status_progressing :
      Option ExtensionError → ClusterExtension a → ClusterExtension a
  set_status_progressing none ext =
      set_status_condition type_progressing is_true "Succeeded" (literal "Desired state reached")
        ext
  set_status_progressing (some (terminal reason t)) ext =
      set_status_condition type_progressing is_false (reason_or_blocked reason) (of_error t) ext
  set_status_progressing (some (plain t)) ext =
      set_status_condition type_progressing is_true "Retrying" (of_error t) ext
  set_status_progressing (some nil_pointer) ext =
      set_status_condition type_progressing is_true "Retrying"
        (of_error (text_of_error nil_pointer)) ext

  -- a condition that is missing gets a fallback
  abbrev fill_condition :
      String
      → MessageText
      → String
      → Option (Condition (List ℕ))
      → ClusterExtension a
      → ClusterExtension a
  fill_condition reason message kind (some _) ext = ext
  fill_condition reason message kind none ext =
      set_status_condition kind is_false reason message ext

  unfoldable pub ensure_loop :
      String → MessageText → List String → ClusterExtension a → ClusterExtension a
  ensure_loop reason message [] ext = ext
  ensure_loop reason message (kind ∷ kinds) ext = ensure_loop reason message kinds (
      if is_deprecation_condition kind
      then ext
      else fill_condition reason message kind (find ext.conditions kind) ext)

  unfoldable pub ensure_failure_conditions_with_reason :
      String → MessageText → ClusterExtension a → ClusterExtension a
  ensure_failure_conditions_with_reason reason message ext =
      ensure_loop reason message condition_types ext
