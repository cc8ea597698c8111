-- ===== src/Applier/Phase.antt =====
-- internal/operator-controller/applier/phase.go: the objects of a bundle, sorted into phases.
pub mod Sorted
use Prim.Native.String
use operator_controller.Prelude.{
  ℕ, String, List, [], ◌∷◌, ◌++◌, map, Option, none, some, Bool, true, false, ◌&&◌, not,
  if◌then◌else◌, ◌==◌, any_of, Ordering, lt, eq, gt,
}
use operator_controller.Order.{then_by}
use operator_controller.Sort.{sort_stable}

pub record GroupKind : Type 0 where
  pub kind : String
  pub group : String

-- `phaseGKMap`, which `init` turns into `gkPhaseMap`
abbrev core : String → GroupKind
core kind = record { kind = kind; group = "" }

abbrev gk : String → String → GroupKind
gk kind group = record { kind = kind; group = group }

abbrev pub phase_gk_map : List (String × List GroupKind)
phase_gk_map =
    ("namespaces", core "Namespace" ∷ [])
    ∷ (
      "policies",
      gk "NetworkPolicy" "networking.k8s.io"
          ∷ gk "PodDisruptionBudget" "policy"
          ∷ gk "PriorityClass" "scheduling.k8s.io"
          ∷ [],
    )
    ∷ ("identity", core "ServiceAccount" ∷ [])
    ∷ ("configuration", core "Secret" ∷ core "ConfigMap" ∷ [])
    ∷ (
      "storage",
      core "PersistentVolume"
          ∷ core "PersistentVolumeClaim"
          ∷ gk "StorageClass" "storage.k8s.io"
          ∷ [],
    )
    ∷ ("crds", gk "CustomResourceDefinition" "apiextensions.k8s.io" ∷ [])
    ∷ (
      "roles",
      gk "ClusterRole" "rbac.authorization.k8s.io" ∷ gk "Role" "rbac.authorization.k8s.io" ∷ [],
    )
    ∷ (
      "bindings",
      gk "ClusterRoleBinding" "rbac.authorization.k8s.io"
          ∷ gk "RoleBinding" "rbac.authorization.k8s.io"
          ∷ [],
    )
    ∷ ("infrastructure", core "Service" ∷ gk "Issuer" "cert-manager.io" ∷ [])
    ∷ ("deploy", gk "Certificate" "cert-manager.io" ∷ gk "Deployment" "apps" ∷ [])
    ∷ ("scaling", gk "VerticalPodAutoscaler" "autoscaling.k8s.io" ∷ [])
    ∷ (
      "publish",
      gk "PrometheusRule" "monitoring.coreos.com"
          ∷ gk "ServiceMonitor" "monitoring.coreos.com"
          ∷ gk "PodMonitor" "monitoring.coreos.com"
          ∷ gk "Ingress" "networking.k8s.io"
          ∷ gk "Route" "route.openshift.io"
          ∷ gk "ConsoleYAMLSample" "console.openshift.io"
          ∷ gk "ConsoleQuickStart" "console.openshift.io"
          ∷ gk "ConsoleCLIDownload" "console.openshift.io"
          ∷ gk "ConsoleLink" "console.openshift.io"
          ∷ gk "ConsolePlugin" "console.openshift.io"
          ∷ [],
    )
    ∷ (
      "admission",
      gk "ValidatingWebhookConfiguration" "admissionregistration.k8s.io"
          ∷ gk "MutatingWebhookConfiguration" "admissionregistration.k8s.io"
          ∷ [],
    )
    ∷ []

abbrev pub default_phase_order : List String
default_phase_order =
    "namespaces" ∷ "policies" ∷ "identity" ∷ "configuration" ∷ "storage" ∷ "crds" ∷ "roles"
    ∷ "bindings" ∷ "infrastructure" ∷ "deploy" ∷ "scaling" ∷ "publish" ∷ "admission" ∷ []

abbrev pub phase_deploy : String
phase_deploy = "deploy"

abbrev pub is_gk : GroupKind → GroupKind → Bool
is_gk a b = a.kind == b.kind && a.group == b.group

-- `determinePhase`; a group and kind stands in one phase only
unfoldable pub phase_among : GroupKind → List (String × List GroupKind) → String
phase_among g [] = phase_deploy
phase_among g ((phase, gks) ∷ rest) =
    let other = phase_among g rest in if any_of (is_gk g) gks then phase else other

unfoldable pub determine_phase : GroupKind → String
unfolding phase_among
determine_phase g = phase_among g phase_gk_map

-- what the order of the objects looks at
pub record ManifestApi : Type 1 where
  pub Object : Type 0
  pub group : Object → String
  pub version : Object → String
  pub kind : Object → String
  pub namespace : Object → String
  pub name : Object → String

pub record SortedPhase (O : Type 0) : Type 0 where
  pub name : String
  pub objects : List O

module _ (x : ManifestApi) where
  open x use {Object}

  -- `compareClusterObjectSetObjectApplyConfigurations`
  abbrev pub by_key : (Object → String) → Object → Object → Ordering
  by_key key a b = String.compare (key a) (key b)

  unfoldable pub compare_objects : Object → Object → Ordering
  compare_objects a b = then_by (by_key x.group a b) (
      then_by (by_key x.version a b)
        (then_by (by_key x.kind a b) (then_by (by_key x.namespace a b) (by_key x.name a b))))

  abbrev pub phase_of : Object → String
  phase_of o = determine_phase (record { kind = x.kind o; group = x.group o })

  -- `phaseMap[phase]`: the objects of a phase, in the order given
  unfoldable pub phase_map : String → List Object → List Object
  phase_map phase [] = []
  phase_map phase (o ∷ os) =
      let rest = phase_map phase os in if phase_of o == phase then o ∷ rest else rest

  -- a phase of the result, if it has objects
  abbrev pub add_phase :
      String → List Object → List (SortedPhase Object) → List (SortedPhase Object)
  add_phase phase [] rest = rest
  add_phase phase (o ∷ os) rest =
      record { name = phase; objects = sort_stable compare_objects (o ∷ os) } ∷ rest

  -- the loop of `PhaseSort` over the phases in order
  unfoldable pub phase_loop : List String → List Object → List (SortedPhase Object)
  phase_loop [] os = []
  phase_loop (phase ∷ phases) os = add_phase phase (phase_map phase os) (phase_loop phases os)

  unfoldable pub phase_sort : List Object → List (SortedPhase Object)
  unfolding phase_loop
  phase_sort os = phase_loop default_phase_order os
