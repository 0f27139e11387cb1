-- ===== src/Lib.antt =====
-- The replay ledger of minireplay: what a replay hands back to an agent framework, what it
-- records, and what it keeps of a recording that is cut off.
--
-- A recording holds the native operations of a run (dispatches, tools, graders, artifacts) in
-- ledgers. On replay every operation crosses the boundary again: it claims its record, runs, and
-- is completed. The parts, with the files that model them:
--
-- - minireplay/boundary.py, `BoundaryLedger`: Boundary.antt and its children. The object is the
--   record `Ledger`, what its constructor fixes is `Setting`, and a method is an action that
--   takes the ledger and returns the new one with a result, so that a raise keeps what was
--   changed before it. Boundary/Claim is `_claim`, Boundary/Start is `_load_expected` and
--   `start`, Boundary/Complete is `complete` with the records, Boundary/Cutoff is
--   `freeze_source_cutoff`, Boundary/Account is the accounting, and Boundary/Serve has the
--   handlers, cut at their awaits. The files that it appends to are lists of lines in the ledger.
-- - minireplay/contracts.py: Contracts.antt. Binding of deployment paths to names that do not
--   depend on the run, which the boundary uses before it compares arguments.
-- - minireplay/cutoff.py, `close_stage_at_cutoff`: Cutoff.antt. The stage is its five ledgers and
--   its spans. The loop runs on fuel, one more than the number of records and spans, which is
--   enough since every round but the last drops one.
-- - minireplay/errors.py and `require` of minireplay/util.py: Prelude/Results.antt. Messages are
--   left out.
-- - vllm_plugin/src/native_replay_vllm/protocol.py and forced.py: Engine.antt. The forced step of
--   one request, the placeholders of the engine's output, the signed requests and windows and the
--   status of the audit. The engine's output list, which it shares with the plugin, is an
--   argument of each step, and a run of steps is a list of what each was given.
-- - minireplay/llm_store.py: Llm.antt. Llm/Sse is the decoder of event streams, Llm/Tokens the
--   token fields of an answer, Llm/Calls the index of model calls, Llm/Shape the shapes that a
--   claim compares. The object `LLMStore` is the record `Store` of Llm/Store, with the queues of
--   its constructor. Llm/Store/Claim is `_claim`, Llm/Store/Record is `_record` and
--   `_write_attempt`, Llm/Store/Stream is `_record_stream`, where each event is a step and each
--   write says whether the client still reads, Llm/Store/Replay is `_handle` and `_replay` cut at
--   their awaits, and Llm/Store/Account is the cutoff and the accounting. Llm/Store/Run puts the
--   handlers of a replay side by side as a relation of steps. The loop of the decoder runs on
--   fuel, the length of its buffer, which is enough since every event takes at least its
--   separator off.
-- - minireplay/schema.py: Schema.antt has the checks of single records but `validate_llm`, which
--   is Llm/Slot, since the store's queues hold what it returns. Schema/Graph is
--   `validate_causal_graph`, on the records as Cutoff.antt has them, and Schema/Chain is
--   `validate_artifact_graph`, on the fields that `validate_artifact` has checked.
-- - minireplay/observation.py: Observation.antt has the contracts, Observation/Pointer the JSON
--   pointers, by their parts, and Observation/Project `project_result`. The document is copied
--   before it is changed, so a change is a function of the document.
-- - minireplay/bundle.py: Bundle/Calls is `_response_tool_calls`, Bundle/PreDispatch
--   `materialize_pre_dispatch_tails`, with the local variables of its loops as a record, and
--   Bundle/Checks the checks of the tails, the actors and the dispatches.
-- - minireplay/lane_record.py: LaneRecord.antt has the appends to the logs of the lanes,
--   LaneRecord/Events reads them in order, LaneRecord/Materialize plays them to a ledger, with the
--   sets of the loop as a record, and LaneRecord/Scopes makes the envelopes.
-- - minireplay/forced.py: Forced.antt. The client's signatures, the window of the committed
--   tokens and the evidence of the engine. Forced/Body is `forced_upstream_body`. Forced/Audit is
--   `ForcedAuditReader`: a future is a number, a read is given the log as it is then, and
--   Forced/Audit/Steps puts its rounds and the waits in any order.
-- - minireplay/services.py: Services.antt. The ledger and the store as one replay: the questions
--   that are asked of both, which a claim of either asks, and the freeze.
-- - Bytes.antt is Python's methods of `bytes` over lists of numbers.
-- - Json.antt is the JSON values that these exchange, Prelude.antt the shared helpers.
--
-- Numbers: times are natural numbers, and a difference that the source takes as `max(0, a - b)`
-- is the subtraction that stops at 0. `now - started` is taken on a monotonic clock, where
-- `started <= now`. A path under a prefix is a string with that prefix.
--
-- Parameters: `Python` stands for `repr`, SHA-256, `Path.resolve` and, for the ledger alone, the
-- projections of minireplay/observation.py, which `with_observation` of Schema/Called puts in their
-- place; `int` of a text and the names of the lanes' files are functions; `Crypto` for
-- HMAC-SHA-256, the spelling of numbers and `re.fullmatch`; `Fresh` for what `secrets` and the
-- clock give; `loads` and `dumps` are those of `json`; `Library` for these and for `dict`. To the
-- boundary the LLM store is a function from a model call to its attempt. Nothing is assumed of them
-- but what a theorem names: that a request is equal to itself and to what its encoding decodes to,
-- that a SHA-256 is written in 64 hexadecimal digits, and that an identifier has the form that
-- `re.fullmatch` is asked for.
--
-- Not modelled: in schema.py the check of the manifest; in bundle.py the files of a bundle, its
-- counts, the actors of its cutoff and the window of a coral team; the timeline, the control of
-- replays of coral, the supervision and launching of runs, the client library and the
-- configuration; the body that a recording sends to the engine, the catalogue of models, the batch
-- of the engine (slots, discard mask and the states of new requests), HTTP routing and
-- authentication, the files themselves, processes, containers, the frameworks' instrumentation,
-- metrics and reports.
pub mod Prelude
pub mod Json
pub mod Contracts
pub mod Boundary
pub mod Cutoff
pub mod Engine
pub mod Bytes
pub mod Llm
pub mod Forced
pub mod Services
pub mod Observation
pub mod Schema
pub mod LaneRecord
pub mod Bundle
