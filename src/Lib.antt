-- ===== src/Lib.antt =====
-- The collector of AndroidAPM (src/androidapm_server): phones send batches of events over HTTP with an
-- ingest key; the collector stores them in a durable inbox, symbolizes crashes, and exports the inbox
-- to an OTLP collector. This library models its admission control, the formats of batches, the durable
-- inbox and its workers.
--
-- The parts, and the files that model them:
--   * Auth: auth.py, query_auth.py and ci_auth.py. Auth/Bearer has the three header parsers (one
--     function of the prefix), Auth/Secret what the three `authenticate_*` functions share, up to the
--     verified hash, Auth.antt what each of them adds, Auth/Access their principals.
--   * AuthBudget: auth_budget.py. AuthAttemptBudget with `consume`, and BoundedHashVerifier with its
--     slots as a number and the hashes in flight as a list; Auth/Secret uses both.
--   * Identity: identity.py. The key ring that pseudonymizes installations.
--   * Protocol: protocol/protobuf.py (Protobuf), protocol/line.py (Line), protocol/decoder.py (Decoder)
--     and protocol/compression.py (Compression): from the bytes of a body to its events.
--   * Ingest: api/ingest.py. Ingest/Headers has the checks of the headers and of the body,
--     Ingest/Transaction the transaction of a batch, which calls Db/Quota, Db/Inbox/Insert,
--     Db/Symbolization/Creation and Db/Maintenance as the handler does; Ingest/History has histories of
--     the tables: requests, the actions of Db/System and maintenance, in any order. Ingest/Growth,
--     Ingest/Custody, Ingest/Release and Ingest/Delivery follow the inbox rows through them.
--   * Db/Quota: db/quota.py. `consume_quota` as one upsert on the list of rate windows.
--   * Db/Models: db/models.py and the constants and enumerations that its columns hold.
--   * Db/Worker: db/worker.py. `claim_batch`, `mark_delivered` and `mark_failed` on the inbox rows.
--   * Db/Symbolization: db/symbolization.py. The jobs of crash events, and the rows that wait for them;
--     Creation makes them, Completion ends them, and Identity decides which job an event has and which
--     artifact it needs.
--   * Db/Leases: db/leases.py. The claim tokens.
--   * Db/Inbox: db/inbox.py. `_remove_known_installation_plaintext` on a JSON payload; in Prepare
--     `_prepare_event`, in Batch `_prepare_unique_events`, in Insert `insert_batch`, with the rows that
--     other transactions commit between its read and its INSERT.
--   * Db/Maintenance: db/maintenance.py. `check_inbox_capacity` and the pruning of `maintain_once`.
--   * Db/Custody: the abstract machine of one inbox row, to which Db/Worker/Refinement and
--     Db/Symbolization/Evolution relate the operations.
--   * Db/System: the transactions of the export workers and of symbolization. An `Action` is one claim,
--     completion or failure of an export worker, or one enqueuing, claim, attempt, missing artifact,
--     completion, failure or wake-up of symbolization, and `run` a history of them in any order. The
--     insertion of inbox rows and maintenance are steps of Ingest/History instead.
--   * Otlp/Client: otlp/client.py. What an answer of the collector means for a batch.
--   * ExportWorker: worker.py. One cycle of the export worker, with actions of Db/System between its
--     transactions.
--   * SymbolizerWorker: symbolizer_worker.py. One cycle of the symbolizer, likewise; the artifact that is
--     resolved and the outcome of the tool are inputs of each turn.
--   * RemoteConfig: remote_config.py. `rollout_includes` and the checks of `sign_config`.
--   * Errors, Domain, Json: errors.py, domain.py with its validators, and JSON payloads.
--   * Prelude, Db/Table: lists, text and SQL updates, which the others share.
--
-- How the state is modelled. A table is the list of its rows in the order of their keys; one function
-- is one operation with the clock's readings, the rows that other transactions lock, random tokens and
-- digests as its arguments. A time is a number of microseconds, and the tokens of the attempt budget
-- are counted in millionths; Python's floats are not modelled. A status column holds one of its
-- constants. Columns that no modelled operation reads are left out: creation and update times, schema,
-- SDK and protocol versions, event timestamps, the normalized view, and the results and tools of
-- symbolization. Message texts of errors are left out; their codes, statuses, event indices, retryable
-- flags and Retry-After values are kept. Text of headers and build ids is a list of code points, of
-- which `lower` treats ASCII.
--
-- Fuel. Two loops are on fuel. `decode_frames` and `inflate` are started with the length of the
-- payload, of which every turn takes at least five bytes, or at least one.
--
-- Parameters. Argon2 (`verifies`), the protobuf message class with the validation of an event
-- (`parse`), SHA-256, HMAC, Base64 and Ed25519, zlib (`Decompressor`), UTF-8 decoding, json.dumps
-- (`dumps`), the reading of a Retry-After header and HTTP (`Reply`) are libraries. The mapping of
-- rows to OTLP (otlp/logs.py) is a parameter of ExportWorker, and the incident fingerprint of
-- normalization.py one of Db/Inbox.
--
-- Not modelled: the versioned envelopes and the handler that decodes them, normalization, the
-- artifact registry and the runs of its tools, the deletion of old rate windows, the query API, the
-- delivery of remote configuration, web sessions, administration, settings, logging and metrics,
-- migrations, scripts and the web console. An UPDATE reads the clock once, where PostgreSQL's
-- clock_timestamp() may advance from row to row of one statement.
pub mod Prelude
pub mod Json
pub mod Errors
pub mod Domain
pub mod Db
pub mod AuthBudget
pub mod Auth
pub mod Protocol
pub mod Otlp
pub mod ExportWorker
pub mod RemoteConfig
pub mod Identity
pub mod Ingest
pub mod SymbolizerWorker
