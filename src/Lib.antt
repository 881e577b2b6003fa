-- ===== src/Lib.antt =====
-- A model of the control plane of VeriLink (control-plane/src), the service that takes signed
-- attestations, scores principals with a trust engine, and streams the changes to edge nodes.
--
-- The parts, and the files that model them:
--
-- - Base: shared names and lemmas. Base/Texts and Base/Patterns are texts and the regular
--   expressions, Base/Int and Base/Decimal integers and numerals, and Base/Value the untyped values
--   of a request's body, which the checks of policies and of batches read.
-- - Attestation (control-plane/src/domains/attestation): Json is what JSON.parse returns, Schema the
--   checks of schemaValidator.ts and legacyConfig.ts, Submit and Submit/Store the steps of
--   submitAttestation with the queries of the attestation and principal repositories. Under them,
--   Fixed, Limits, Guards and Tables hold the proofs.
-- - Graph (control-plane/src/domains/graph): ScoreWriter is applyScoreTable of scoreWriter.ts with
--   scoreChanged, Scheduler is the class of recomputeScheduler.ts, Grouping is
--   observationGrouping.ts, and Loader is attestationGraphLoader.ts, which reads the registry of the
--   roots and groups the attestations. Recompute is recomputeNow, which puts them together, with the
--   attempts of grpc/runVeriRankClient.ts.
-- - Sync (control-plane/src/domains/sync): WriteQueue is the class SseWriteQueue, with its pump in
--   WriteQueue/Pump; LastEventId is parseLastEventId.ts; EventLog is syncRepository.ts, the table
--   that the score writer appends to; Cursors is syncCursorRepository.ts; Registry is sseRegistry.ts;
--   Frames is the text of the frames; and Session is runSseSession of sseSession.ts, which puts them
--   together: it sends the event log through a queue, confirms cursors and leaves the registry.
-- - Decision (control-plane/src/domains/decision): Sample is decisionSample.ts, Batch the checks of a
--   batch, and Ingest is ingestDecisionBatch with its tables.
-- - Access (control-plane/src/middleware and control-plane/src/lib): the guards and the login's user.
-- - Billing (control-plane/src/domains/billing): subscriptions, and Billing/Events the webhook.
-- - Bootstrap (control-plane/src/domains/bootstrap): Registry is the seed of the roots of trust and
--   their edits, of bootstrapSeeder.ts, bootstrapRepository.ts and seedAttestations.ts.
-- - Policy (control-plane/src/domains/policy): Validation is parsePolicyUpdate, and Store the table
--   of policies with replaceActivePolicy, which appends to the event log.
-- - Examples: instances of the theorems on concrete inputs.
--
-- State is a record that operations take and return. A table is a list of rows in the order of
-- their insertion. A statement or a transaction that the code runs under a lock, a snapshot or a
-- unique index is one function. A class with timers and callbacks is a step function on events,
-- and a history is a list of events. A function that awaits is a state machine with a phase for each
-- await. Names follow the source in snake case.
--
-- The pump's loop runs on fuel: one round for each queued frame and one to stop, and Pump/Rounds
-- shows that more changes nothing. Every other loop is by recursion on its list.
--
-- Parameters stand for what is outside: the answers of the socket, hashes, the signature checks of
-- the trust engine and of the payment provider, JSON texts, dates, random ids, the environment, and
-- what a column of the database holds of a value.
--
-- Not modelled: the routes and the server, the clients of the trust engine, the checkout and portal
-- sessions of the payment provider, logging, and read-only reports. The service for de-emphasis is
-- not modelled either. Numbers of the source are natural numbers or integers without a bound, as no
-- value here comes near 2 ^ 53, except versions, which the parser bounds by PostgreSQL's BIGINT, and
-- the numbers of a request's body, which are exact doubles.
pub mod Base
pub mod Sync
pub mod Graph
pub mod Attestation
pub mod Decision
pub mod Access
pub mod Billing
pub mod Bootstrap
pub mod Policy
pub mod Examples
