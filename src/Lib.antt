-- ===== src/Lib.antt =====
-- orb-operator: a Kubernetes operator that rolls objects out in revisions.
--
-- A ClusterObjectDeployment holds a template. Its controller keeps one ClusterObjectSet, a revision,
-- for each template it has seen, archives the revisions that a newer available one supersedes and
-- prunes the archived ones. The controller of a revision lets boxcutter reconcile its objects phase
-- by phase, and writes what it found into the revision's status, which the first controller reads.
--
-- Files and what they model (paths from the repository's root):
-- - Api: api/v1alpha1, the resources as records; Api/Rules holds the rules that the
--   resource definition of ClusterObjectSet puts on the status as a whole and on the times of phases;
--   the limits on lengths and numbers of items in a status, and the pattern of a phase's name, are not
--   among them.
-- - Errors: Go errors as trees and internal/errors/errors.go.
-- - Boxcutter, Kube: the values that the operator reads of the libraries' results, and the library
--   functions that it calls, with what their documentation promises as hypotheses (SetsByType,
--   RemovesFinalizer).
-- - ApplyConfig: the setters of applyconfigurations/api/v1alpha1 that are called.
-- - Template: internal/template/template.go. JSON and SHA-256 are parameters (Codec).
-- - Status/Cos: internal/status/cos/status.go. Update has FromReconcile, FromTeardown and Apply;
--   Phases, Mapping and Incomplete build the observed phases; Completion has
--   PreserveCompletionTimes; Messages has the messages of objects.
-- - Status/Cod: internal/status/cod. Availability has EvaluateAvailability, IsAvailable and
--   ActiveRevisionSummaries; Progress has EvaluateDeadline.
-- - Revision/Chain, Revision/Engine: internal/revision/chain.go and engine.go. boxcutter's engines
--   are parameters that act on a cluster of unknown type.
-- - Revision/Builder, Assertions: internal/revision/builder.go and internal/assertions/probes.go.
--   Probes are the values that they are made of; the compilation of a CEL expression is a parameter.
-- - Admission: the rules of api/v1alpha1 on the spec of a revision, at its creation and at an update,
--   and the policy of deploy/lib/api.libsonnet on its name; Patterns has the patterns of names, Finalizers
--   the policy on the order in which finalizers are removed. What server-side apply leaves of a
--   spec is a parameter (ServerSideApply).
-- - Object: internal/object. Lookup has lookupInSlice and transform.go, Resolver the rest of
--   resolver.go, Identity identity.go. The libraries' functions on objects, JSON, gzip and SHA-256
--   are parameters (ObjectLib), and so is the read of a slice.
-- - Controller/Server: the API server. The state of a run is the list of the calls made so far, and
--   the answer to a call is any function of that list and the call, so the theorems hold for every
--   behaviour of the server and of its other clients.
-- - Controller/Apply, Controller/Finalizer: internal/cosutil/apply.go, Apply and the three functions
--   on finalizers. Managed fields are maps as json.Unmarshal makes them; the polling is a parameter.
-- - Controller/Cod: internal/controller/cod/controller.go. Revision has nextRevisionNumber and the
--   choice of the latest active revision; Env is what the handler is given; Handler has its steps,
--   Reconcile their composition, and Protocol an order of calls that is stated apart from the code.
-- - Controller/Cos: internal/controller/cos/controller.go. Env is what the handler is given, Watch the
--   requests for a changed slice, Prepare the steps before boxcutter is called, Handler the rest, and
--   Protocol an order of calls that is stated apart from the code. boxcutter acts on the history of
--   calls; a handler that gives none has panicked.
-- - Rollout: examples/gated-rollout/main.go, the program that walks through a rollout. Its Update
--   answers messages with commands; Run has the messages that can arrive, with the actions in flight,
--   and where a run can be; Objects and Steps have the deployments and the steps, Deadline and View
--   what is shown, Cleanup what is done to the cluster.
-- - Base: shared names, lists, sorting, maps and int64 arithmetic. Tests: runs on concrete inputs.
-- Modules below a component hold the theorems about it, and are named for what these are about.
--
-- Conventions: numbers are native naturals; int64 and uint32 values keep their wrap-around, a
-- metav1.Time is in nanoseconds since Go's zero time, and a time difference saturates as in Go. A
-- pointer that may be nil is an Option; a nil dereference is a result none where it can happen. Go's
-- sorts are insertion sorts here; of equal keys Go may give another order. Two loops take fuel: the
-- digits of a uint32, of which there are at most ten, and the cleanup of the example, whose fuel is
-- enough when it exceeds the number of lists that still have a revision of the group.
--
-- Not modelled: logging, metrics, the registration of the controllers and the wiring of cmd/operator,
-- which have no effect on the state; what the API server's answers write back into an object that was
-- sent; generated code that is not called; the table of phases that the example prints; the tests and the
-- deployment files but for the policies on names and on finalizers.
pub mod Base
pub mod Errors
pub mod Api
pub mod Boxcutter
pub mod Kube
pub mod Status
pub mod ApplyConfig
pub mod Object
pub mod Admission
pub mod Assertions
pub mod Template
pub mod Revision
pub mod Controller
pub mod Rollout
pub mod Tests
