-- ===== src/Lib.antt =====
-- The A2A registry: a Kubernetes operator that keeps agents of the A2A protocol as custom resources,
-- checks their health, and serves them over an HTTP API.
--
-- The parts and how they interact
--
-- * `Api` is api/v1: the custom resources A2AAgent and A2ARegistry, one record for each struct.
-- * `Webhook` is api/v1/a2aagent_webhook.go and api/v1/a2aregistry_webhook.go: validation and
--   defaults of the resources before they are stored. A validator gives the list of its error texts.
-- * `AgentController` is controllers/a2aagent_controller.go: `Reconcile` from the read of an agent to
--   the write of its status. It calls `HealthCheck` (internal/healthcheck/checker.go), which calls
--   `Resolver` (internal/registry/resolver.go), which fetches the agent's card.
-- * `RegistryController` is controllers/a2aregistry_controller.go: it counts the agents, deletes the
--   stale ones, and pushes the discovery configuration to the server.
-- * `Conditions` is controllers/conditions.go with the copy in internal/registry/dashboard.go.
-- * `Handler` is internal/registry/handler.go and internal/registry/dashboard.go: the handlers of the
--   HTTP API. `Server` is internal/registry/server.go: routes, address, configuration.
-- * `GoStrings` writes out the functions of Go's package strings that the source calls, and `Platform`
--   holds what the source calls and does not implement, as parameters.
-- * `DeepCopy` is the DeepCopy, DeepCopyInto and DeepCopyObject methods of api/v1/a2aagent_types.go
--   and api/v1/a2aregistry_types.go, over a heap: `Structs` has the structs as they lie in memory,
--   `copy_spec` is the spec's DeepCopyInto and `deep_copy_spec` its DeepCopy.
-- * `Metrics` is internal/metrics/metrics.go; the calls on the metrics stand in the trace (below).
-- * `Manager` is cmd/manager/main.go: flags, the calls of the set-up in order, `ensureNamespace`, the
--   exit status, and the two `SetupWithManager`.
-- * `HelloAgent` is examples/hello-agent/main.go: the executor, the card and the two routes.
-- * `System` puts the parts together: answered requests, runs of the two reconcilers and changes by
--   other users of the cluster, in any order; and the API as a directory of agents.
--   `Approval` and `Removal` follow one agent through a request and the run of the reconciler after it.
-- * `Scenarios` runs the models on a small cluster in memory.
--
-- State and effects
--
-- A handler or a reconciler maps a `World` to an answer and a `World`: the cluster, whose type and
-- whose operations (`KubeClient`) are parameters, and the trace of the calls that write: client
-- writes, metrics, events. A method that returns an error in Go is an `Exec`, whose error keeps what
-- was done before it. After a write the model goes on with the object that the server sent back, as
-- Go's client decodes it into its argument. An assignment to a field of an object is a new record.
--
-- Numbers, times, texts
--
-- An int32 is an integer whose increment wraps at 2 ^ 31. A time is a number of nanoseconds; the
-- readings of the clock within one run are one value. A text is a string of characters, and Go's
-- functions on bytes are written on characters where they cannot differ: they look for ASCII bytes.
-- Unicode's case tables, JSON, SHA-256, base64, URL and address parsing and the formatting of values
-- are fields of the parameter `Std`. Header maps are association lists. The only order of a map that
-- the source runs over, that of the request headers, does not matter, as keys are distinct.
-- All loops are recursion over lists, so there is no fuel.
--
-- Memory and processes
--
-- The controllers and handlers own the objects that they change, so that values stand for them. Only
-- `DeepCopy` has a heap: a cell for each struct behind a pointer and each array of a slice, an
-- allocation takes the next free address, and a read of an address without a fitting cell is a
-- panic. A slice is its array, with no spare capacity. What metav1's own deep copies do is a
-- parameter with the law that they copy deeply. A process (`Manager`) is the list of its calls with
-- their answers, which an unknown environment gives, and ends with a value or an exit status.
--
-- Not modelled
--
-- Logging, the registration of the API group's scheme, the sockets of the API server
-- (`Server.Lifecycle` has how `Start` ends), the dashboard page. The API server is free to refuse any
-- call; concurrent requests
-- and reconciler runs are separate steps on its state, each of them whole. The multiplexer is
-- modelled at clean paths.
mod Common
pub mod Api
pub mod Platform
pub mod GoStrings
pub mod DeepCopy
pub mod Metrics
pub mod Manager
pub mod HelloAgent
pub mod System
pub mod Conditions
pub mod Resolver
pub mod HealthCheck
pub mod AgentController
pub mod Webhook
pub mod Handler
pub mod Server
pub mod RegistryController
mod Scenarios
