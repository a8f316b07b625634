-- ===== src/Lib.antt =====
-- PermissionSync: for an authenticated caller, the permissions of a user that a Permission Provider
-- returns are reconciled with a target system.
--
-- A request is admitted by the runtime (src/runtime), authenticated by its bearer token
-- (crates/permissionsync-auth), whose scope selects a logical target, and synchronized by the
-- orchestration (crates/permissionsync-orchestration): the target is routed to an adapter
-- (crates/permissionsync-routing), a permit of the capacity is taken, the Provider is asked for the
-- desired state, and the adapter reconciles it, for GLPI (crates/permissionsync-adapter-glpi) by a
-- plan of removals and additions.
--
-- Prelude: the shared names. Prelude.Outcome is `Result` with `?` as bind. Prelude.Io is code that
--   awaits: a function from the state of the world to a result and the next state, so that what other
--   tasks, clocks and servers do in between is arbitrary. Prelude.Bytes is text as a list of bytes,
--   Prelude.Order the stable sort, Prelude.Json a parsed document with its members in order,
--   Prelude.Shapes what the derived deserialisation of a struct accepts of it, Prelude.Decimal the
--   decimal texts of `u64`.
-- Domain: crates/permissionsync-core. Domain.Target is `LogicalTarget::try_from` of target.rs, with
--   the grammar of the ADR in Domain.Target.Grammar; Domain.Values the identity, credential and
--   envelope; Domain.Context the request context and the ports' requests.
-- Routing: crates/permissionsync-routing/src/lib.rs, `TargetRouter::new` and `resolve`.
-- Orchestration: `SelectedTargetSynchronizer::synchronize` of synchronizer.rs over arbitrary ports.
--   Orchestration.Trace lists the possible conversations with recorded ports, and
--   Orchestration.Trace.Stages follows one synchronization stage by stage.
-- Auth: crates/permissionsync-auth/src. Auth.Scope and Auth.Claims are claims.rs; Auth.Cache has the
--   snapshot, its age classes and the tables of outcomes of authenticator.rs; Auth.Preflight is
--   `preflight_header` of jwks.rs; Auth.Verifier is
--   `classify_cache` and `verify_current`; Auth.Authenticator is `refresh`, its three users,
--   `authenticate` and `ensure_trusted_verifier_state`. Their Keeps modules follow a property of
--   the world, which every call to the outside keeps, through a run.
-- Glpi: crates/permissionsync-adapter-glpi/src. Glpi.Plan is plan.rs, `compute` and
--   `is_canonical`; Glpi.Payload is `parse_and_normalize` of payload.rs; Glpi.Http the requests,
--   responses and headers; Glpi.Config the validation of config.rs; Glpi.Session is session.rs,
--   Glpi.Mutation mutation.rs, Glpi.Deadline the deadline checks of adapter.rs. Glpi.Search is
--   search.rs: Options the identifiers of the search options, Page the parsing of one page, Pages
--   `search_all_pages`, Matches the exact resolution of names, Assignments the reading of a
--   user's rows. Glpi.Adapter is `reconcile` of adapter.rs, which composes all of these.
-- Inbound: crates/permissionsync-inbound-http/src/lib.rs, `handle` and its stages; Inbound.Bearer is
--   `extract_bearer`, with the grammar of RFC 6750 in Inbound.Bearer.Grammar.
-- Provider: crates/permissionsync-provider-generic-rest/src. Provider.Wire is wire.rs, the metadata
--   and the envelope of a successful response; Provider.Client is `resolve` of client.rs, with the
--   bounded reading of the body.
-- Runtime: Runtime.Admission is src/runtime/admission.rs and lifecycle.rs, the segments of `admit`
--   between its awaits as functions and their interleavings as steps; Runtime.Capacity is
--   src/runtime/capacity.rs. A semaphore may assign a permit that is given back to a waiting request
--   before that request is polled again.
-- Tests: the definitions on small inputs.
--
-- Loops run over lists, with two exceptions: the loop of `search_all_pages` has the fuel 2^64, enough
-- since every round starts at a later row and the start is a `u64`, and a decimal is printed with 20
-- digits, enough for a `u64`. Instants and durations are numbers of nanoseconds, with the overflow of
-- `Duration::checked_add` and the saturation of the `u64` generation written out.
--
-- Parameters, since their code is a library's: the parser of JSON documents, floating-point numbers,
-- the decoding and verification of JWS, the parsing and joining of URLs, certificates, the validity
-- of header values, the parser of media types, the clocks and timers, the locks and the
-- semaphores. Arbitrary operations of an environment are the retrieval of a snapshot by the
-- authenticator, `transport::request` of the GLPI adapter, and the resolution of the address, the
-- connection, TLS and HTTP of the Provider's client.
-- The frames of a response's body to the Provider's client are a list that the response carries: what
-- the connection does while they are read is not followed.
-- Not modelled: the inside of these operations, process input and output, metrics but for the gauges
-- and counters of admission and capacity, the formatting of errors, the parsing of key sets and of
-- endpoints, the other validation of configuration, and the composition of the process.
pub mod Prelude
pub mod Domain
pub mod Routing
pub mod Orchestration
pub mod Auth
pub mod Glpi
pub mod Inbound
pub mod Provider
pub mod Runtime
pub mod Tests
