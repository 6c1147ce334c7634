-- ===== src/Lib.antt =====
-- The dynamic secret operator: a controller that watches custom resources of the kind
-- DynamicSecretPolicy, materializes each new revision of an upstream secret as an immutable Secret,
-- tries it on an isolated canary of the target workload, and then patches the workload to it.
--
-- Parts, with the paths from the repository's root:
--   Api, Api/Pods: api/v1alpha1/dynamicsecretpolicy_types.go, its types and the methods
--     GetResolvedSource and GetVaultObjectName; of the pod types of Kubernetes, the fields that the
--     operator reads or writes, a field `rest` standing for all that it copies.
--   Workload: internal/workload. Names and Mutate are MutatePodTemplateSpec of adapter.go, Adapter
--     the interface WorkloadAdapter with its four implementations.
--   Canary: internal/canary. Template and Deployment are BuildCanaryFromTemplate, its loops and what
--     it builds, Endpoint extractTargetCIDRAndPort, NetworkPolicy the standard and the Cilium policy,
--     Cleanup CleanupCanaryResources.
--   Integration/ArgoCd: internal/integration/argocd.go.
--   Probes: internal/probes. JobName and Job are the names, the construction and the status of probe
--     Jobs (job.go); FailureLogs RetrieveFailureLogs (job.go);
--     Factory is factory.go with the controller's own probe runner; Sql, Postgres and
--     MySql are the database probes (postgres.go, mysql.go), Tls and Http tls.go and http.go. Sanitize
--     is sanitize.go, each of its regular expressions a function that says what a match at the front
--     of a text takes, and Escape url.QueryEscape of Go's library.
--   Events: the way of a rotation event. Router is internal/events/router.go, Bridge the handler that
--     cmd/main.go registers, Listener the receive loop of internal/azure/servicebus.go.
--   Azure: internal/azure, KeyVault keyvault.go and Auth auth.go.
--   Source: internal/source/provider.go, and the preimage of the revision hash.
--   Controller: internal/controller/dynamicsecretpolicy_controller.go. Machine has the decisions
--     (determineState, the breaker, the drift), Status the statuses that are patched, Materialize
--     materializeSecretRevision, Endpoint resolveCanaryProbeEndpoint, Validation
--     reconcileValidationProbes, Gc gcOldSecretRevisions, Provision and Settle the cases of the
--     `switch`, Watch the mappers of watch events, Rotation the `switch` and Reconcile itself, with
--     Controller/Rotation/Progress on the rounds of a rotation that meets no failure.
--     Controller/Rotation/Steps is the state machine as a relation between the status that is read
--     and the one that is patched.
--   Client: what the operator calls and does not implement, as the fields of a record: the API
--     server, the secret store, the clock, the metrics, `retry.RetryOnConflict`, `json.Unmarshal`,
--     SHA-256, PEM decoding. Each call takes the state of the world and returns its answer with the
--     next state; nothing is assumed of the answers. The record Conditions has the condition helpers
--     of apimachinery with the laws that they document, and Canary/Endpoint the record Net of Go's
--     network packages and `strconv`. Client also has the monad of a round, in which an error ends
--     the round.
--   Client/Keeps: the rules by which a predicate of the world survives a computation.
--   Scenario: concrete inputs, to which the modules below it apply the theorems.
--
-- Texts are lists of code points; a Go map is the list of its entries, in the order in which `range`
-- visits them. All loops run over lists, so none needs fuel, but for the receive loop of the listener,
-- which runs until its context is done: it takes a number of rounds, and Events/Listener/Shutdown
-- says how many are enough. The count of failures is an int32 that is incremented below the threshold
-- only, so it does not wrap. Log lines, spans, timeouts that a call observes by itself, and the
-- messages of errors and conditions are left out, as no decision reads them; the errors of the
-- database probes are modelled with their texts. A secret's values are taken to be valid UTF-8.
--
-- Not modelled: the flags and the wiring of the manager (cmd/main.go, SetupWithManager), the
-- propagation of traces, the telemetry, and generated code. Parameters stand for the SDKs of Azure
-- (the records Queue, Sdk and Platform), for the database drivers, for TLS and HTTP, and for hashes and PEM decoding.
pub mod Prelude
pub mod Api
pub mod Azure
pub mod Workload
pub mod Canary
pub mod Client
pub mod Integration
pub mod Probes
pub mod Source
pub mod Events
pub mod Controller
pub mod Scenario
