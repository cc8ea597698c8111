-- ===== src/Externals.antt =====
-- The packages that bundle resolution calls: github.com/blang/semver/v4,
-- github.com/Masterminds/semver/v3, encoding/json and k8s.io/apimachinery's label selectors.
use operator_controller.Prelude.{ℕ, ◌≡◌, Bool, List, Option, some, String, Ordering}
use operator_controller.Order.{IsPreorder}

-- blang's `Version`, whose fields the code reads and writes
pub record Version (P : Type 0) : Type 0 where
  pub major : ℕ
  pub minor : ℕ
  pub patch : ℕ
  pub pre : List P
  pub build : List String

-- the arguments of Masterminds' `New`
pub record MmVersion : Type 0 where
  pub major : ℕ
  pub minor : ℕ
  pub patch : ℕ
  pub pre : String
  pub metadata : String

pub record Externals : Type 1 where
  pub PrVersion : Type 0
  -- `bsemver.NewPRVersion` and `PRVersion.String`
  pub new_pr_version : String → Option PrVersion
  pub pr_string : PrVersion → String
  -- `bsemver.Parse`, `Version.Compare`, `bsemver.ParseRange`
  pub parse : String → Option (Version PrVersion)
  pub compare : Version PrVersion → Version PrVersion → Ordering
  pub parse_range : String → Option (Version PrVersion → Bool)
  -- `mmsemver.NewConstraint` and `Constraints.Check`
  pub new_constraint : String → Option (MmVersion → Bool)
  -- `json.Unmarshal` into a `property.Package`, whose `Version` is read
  pub unmarshal_package_version : String → Option String
  -- `metav1.LabelSelectorAsSelector`, `labels.Everything` and `labels.Nothing`
  pub LabelSelector : Type 0
  pub Selector : Type 0
  pub as_selector : LabelSelector → Option Selector
  pub is_nothing : Selector → Bool
  pub everything : Selector

-- What the documentation of these packages says, where the code relies on it.
pub record ExternalLaws (x : Externals) : Type 0 where
  -- versions are ordered by precedence
  pub compare-IsPreorder : IsPreorder x.compare
  -- a pre-release identifier is printed as it was written
  pub pr_string-new_pr_version :
      (s : String) (p : x.PrVersion) → x.new_pr_version s ≡ some p → x.pr_string p ≡ s
