-- ===== src/Lib.antt =====
-- A model of the parts of operator-controller that decide what to install and roll it out.
--
-- Bundle resolution (internal/operator-controller/resolve, catalogmetadata, bundle, bundleutil,
-- internal/shared/util/filter): from a ClusterExtension's catalog filter and the bundle that is
-- installed, Resolve walks over the catalogs, keeps at most one candidate from each, and returns
-- one bundle.
-- - Filter: internal/shared/util/filter/filter.go; slices.DeleteFunc is modelled with what it
--   leaves in the slice that it works in.
-- - Bundle: internal/operator-controller/bundle/versionrelease.go and bundleutil/bundle.go.
--   Compare and Successors: catalogmetadata/compare and catalogmetadata/filter.
-- - Catalog, Resolve: the data and internal/operator-controller/resolve/catalog.go. The callback
--   of the walk is visit, its parts are offer (the best bundle of one package) and merge
--   (deprecated candidates give way); conclude is what follows the walk.
--
-- The rollout (internal/operator-controller/controllers/clusterobjectset_controller.go): a
-- ClusterObjectSet is one revision of an extension; its controller hands the phases of objects to
-- the boxcutter engine, reports in status conditions and archives earlier revisions.
-- - Exec: state passing with an error; the state that was reached before an error stays, as in
--   Go. Kube: status conditions.
-- - ObjectSet: the objects and the calls. ObjectSet/Conditions, ObjectSet/Phases and
--   ObjectSet/Reconcile hold one definition for each function of the controller, ObjectSet/Run
--   holds reconcile and Reconcile. The state is the object that is reconciled and the list of
--   calls so far; every answer of the API server, the tracking cache and the engine may depend on
--   all calls before, so that a Cluster can be any environment.
--
-- The extension (internal/operator-controller/controllers/clusterextension_controller.go,
-- clusterextension_reconcile_steps.go, boxcutter_reconcile_steps.go, common_controller.go): the
-- ClusterExtension controller is a list of steps that stops at the first error or result; they
-- find out what is installed, resolve a bundle, pull it and have it applied.
-- - Extension: the extension and the state of a reconciliation. Extension/Conditions,
--   Extension/Deprecations, Extension/Steps, Extension/Rollout and Extension/Revisions hold one
--   definition for each function. Each collaborator is called at most once in a reconciliation,
--   so its answer is a value. A nil dereference is the error nil_pointer.
--
-- The applier (internal/operator-controller/applier): from the content of a bundle to the
-- ClusterObjectSet.
-- - Applier/Phase: phase.go. Applier/Packer: secretpacker.go, with one definition for each part
--   of Pack. Applier/Boxcutter: the objects and calls of boxcutter.go;
--   Applier/Boxcutter/Revisions, Applier/Boxcutter/Apply and Applier/Boxcutter/Rollout hold its
--   functions, and shouldSkipPreflight of preflight.go. Applier/Migration:
--   BoxcutterStorageMigrator of boxcutter.go. The state is the list of calls so far, as in
--   ObjectSet.
--
-- The proofs stand in modules named for what they are about. Of the resolution: Bundle/Order,
-- Bundle/RoundTrip, Compare/Laws, and Resolve/Offers (the walk as two passes), Resolve/Priority,
-- Resolve/Candidates, Resolve/Eligible and Resolve/Sound. Of the rollout: ObjectSet/Order (the
-- order of the calls; Order/Lasting and Order/Calls hold what each part of the controller keeps),
-- ObjectSet/Archiving, ObjectSet/Deadline, ObjectSet/Foreign and ObjectSet/Problems (when a
-- result stops the rollout), ObjectSet/Previous, ObjectSet/Finishing and ObjectSet/RolledOut (the
-- archival of earlier revisions and the end of a rollout), ObjectSet/Manifests, ObjectSet/Status.
-- Of the extension: Extension/Falling (a failed resolution), Extension/Panics, Extension/Running
-- and Extension/NeverPanics, Extension/Reported (deprecations), Extension/Messages. Of the
-- applier: Applier/Phase/Sorted; Applier/Packer/Invariant, Refs, Contents, Covered and Loops
-- (what holds along the loops), Packed, Failing and Resolved; Applier/Boxcutter/Permits and
-- Retention (what is deleted), Numbering, Crash, InPlace and Inline; Applier/Migration/Latest and
-- Marked. Exec/Keeps, Exec/Leads and Exec/Succeeds are the rules for actions. Order and Sort hold
-- comparisons and stable sorting. Tests holds concrete inputs: a toy version scheme, two
-- catalogs, a cluster with two revisions, objects to sort and pack, seven revisions of an
-- extension, an extension without catalogs, a Helm history.
--
-- Parameters: blang/semver, Masterminds/semver, label selectors and the property parser are
-- fields of Externals, with the laws that their documentation states in ExternalLaws;
-- meta.SetStatusCondition and its siblings are ConditionApi with ConditionLaws; gzip, JSON and
-- unstructured objects are ObjectApi; what writes them, SHA-256 and base64 are EncodingApi, with
-- EncodingLaws and CollisionFree where a theorem needs them; the texts of condition messages are
-- bytes that ExtensionApi renders.
--
-- Bounds: loops are structural, so no fuel is used. Integers of the source that can be negative
-- are the ℤ of Prelude/Int; times are in nanoseconds, and a time span that would be negative
-- before the creation of an object set counts as 0, which the comparison with the deadline cannot
-- tell apart. The API allows deadlines up to 720 minutes, far below the bound of time.Duration.
-- sort.Slice, which need not be stable, is modelled by a stable sort: the candidates whose order
-- it leaves open have equal priority, and resolution fails for those. slices.SortFunc is modelled
-- likewise: objects that compare as equal have the same identity, and revision numbers of an
-- extension are distinct. The number of a new revision wraps at 64 bits, as the source does.
--
-- Not modelled: logging, the texts of errors (errors are constructors with the values that they
-- print), managers and flags, generated code, the Helm runtime, the generation of revisions from
-- manifests and from Helm releases, the update of a ClusterExtension behind its steps,
-- pre-authorization and catalogd.
pub mod Prelude
pub mod Order
pub mod Sort
pub mod Filter
pub mod Externals
pub mod Bundle
pub mod Catalog
pub mod Compare
pub mod Successors
pub mod Resolve
pub mod Exec
pub mod Kube
pub mod ObjectSet
pub mod Applier
pub mod Extension
mod Tests
