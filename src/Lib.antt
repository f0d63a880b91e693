-- ===== src/Lib.antt =====
-- wisetraceloom is an SDK that writes traces of agents, tools and model calls to an append-only log
-- in SQLite, with configuration, audits, residency and masking around it. This library models the
-- log and what its promises rest on.
--
-- The parts, and the files of this library:
--   * Storage (wisetraceloom/storage.py): a row of the log and its hash. Storage/Append is
--     `_next_version`, `_prev_entry_hash` and the retry loop of `append_commit`; Storage/Commit is
--     `append_commit` as a whole with `_maybe_checkpoint`; Storage/Reads is `_load_stream_state` and
--     the `read_…` functions on one store; Storage/Routed puts the engine before them that each of
--     them resolves.
--   * Storage/Checkpoint (wisetraceloom/checkpoint.py): `compact_checkpoint`, the file paths, and
--     `load_checkpoint_rows`.
--   * Storage/History: a store under appends and compactions, as a step relation with reachability,
--     for the reads over time.
--   * Audit (wisetraceloom/audit_chain.py): `verify_chain`, `compute_merkle_root`, `anchor_commits`
--     and `verify_anchor`.
--   * Config (wisetraceloom/config.py, and the tables of storage.py, redaction.py and
--     otel_export.py): the convention that every configuration table follows, once for all of them
--     (Config, Config/Cache), and each domain by it (Config/Tables).
--   * Residency (wisetraceloom/residency.py): `resolve_engine` and what it reads.
--   * Masking (wisetraceloom/masking.py): `apply_masking`.
--   * Tenancy (wisetraceloom/tenancy.py): tenants, namespaces, `isolated_stream_id` and `grant_role`;
--     Tenancy/Roles is `revoke_role`, `resolve_role`, `assert_viewer_access` and `query_latest`.
--   * Cost (wisetraceloom/cost.py): prices, `record_spend`, `assert_within_quota` and the baseline.
--   * CryptoShred (wisetraceloom/crypto_shred.py): subject keys, and the erasure that ends in
--     `append_commit`.
--   * Prompts (wisetraceloom/prompts.py): fingerprints, versions and aliases; Prompts/Promotion is
--     `register_prompt_version` and `set_prompt_alias`, which call evaluation.
--   * Evaluation (wisetraceloom/evaluation.py): golden sets, `run_golden_eval` and the gate
--     `assert_production_promotion_allowed`, which reads the aliases of prompts.
--   * TraceContext (wisetraceloom/tracecontext.py): the traceparent header.
--   * Storage/Queue (wisetraceloom/storage.py): `enqueue_append` and the writer thread.
--   * Instrumentation (wisetraceloom/instrumentation.py, the spans of schema.py, and
--     `bound_trace_context` of tracecontext.py): the emission of a span; Instrumentation/Blocks is
--     `agent_step`, `tool_call` and `llm_call`. Failsafe (wisetraceloom/failsafe.py) is under it.
--   * Redaction (wisetraceloom/redaction.py, and `default_masking_callback` of masking.py): sensitive
--     fields and patterns.
--   * Export (wisetraceloom/otel_export.py): the exporters and their attributes.
--   * Prelude, Results and Sql: shared lists, texts and tests, exceptions as values, and the engine.
--   * Tests: a concrete engine and host, and the properties at concrete inputs.
-- `append_commit` calls `resolve_engine` for the database, `apply_masking` for the payload, and
-- `get_storage_config` for the checkpoint interval; the audits read the rows that it writes.
-- A block emits its span through `enqueue_append`, and the thread appends it by `append_commit`.
-- `query_latest` asks the access gate, then reads the isolated stream through `read_latest`.
--
-- How the code is modelled:
--   * A table is the list of its rows in the order of their primary keys. What SQLite leaves open is
--     a record of operations and laws (Sql): the order of a SELECT, ORDER BY, and max(). The digest,
--     the text forms of times and payloads, and json are a record too (Host); of the digest it is
--     only used that it has 64 characters. A statement about tampering names the collision that an
--     unseen change would be. The masking callback and the anchor sink are arguments.
--   * The retry loop runs on a list of turns, one for each of its `max_retries` attempts: the clock,
--     the rows that other writers commit between the attempt's reads and its own commit, and whether
--     the commit meets a lock. The unique constraint is the test `taken` on the table at the commit.
--   * A table is chained on a stream if the stream's rows, in the order of the table, have the versions
--     1, 2, and so on, each with the entry hash of the row before it as its prev_hash, none for the
--     first, and with its own recomputed hash as its entry hash.
--   * Rows of a configuration table are unique if no two share a key or a primary key.
--   * Between the statements of `set_prompt_alias` other sessions commit: `rival` before the insert,
--     `reload` between a refused insert and the second select. Floats are a record of operations.
--   * A block of host code is a function of its span, the process and the context variables that tells
--     how it ends: with a value, an Exception, or another BaseException (Failsafe). The clock, the
--     random ids, the logger and the exporters are a record (Outside).
--   * An exception is a value of `Error`. Numbers are natural numbers: versions are counted from 1,
--     and a checkpoint interval below 1 switches checkpoints off as 0 does.
--   * Texts are lists of code points. A time is a number of microseconds with or without the zone.
--   * The loop of `compute_merkle_root` runs on fuel, one unit for each leaf; a round at least
--     halves the leaves that are left, rounded up, so it ends before the fuel does;
--     a loop that ran out of fuel would give no level.
--   * A configuration process is the current database path, the table in each file, and the cache.
--
-- Not modelled: the threads, beyond the steps of the write queue and the list of the compactions that
-- are due; the creation of engines; the matching of regular expressions, and Presidio; logging and
-- rotation, which are I/O; the tracer and the meter of OpenTelemetry; the decorators of the
-- instrumentation, pydantic's validation, and EvalScore. The exporter of the instrumentation is a
-- function that may raise: the exporters of Export are not put in its place.
pub mod Prelude
pub mod Results
pub mod Sql
pub mod Storage
pub mod Audit
pub mod Config
pub mod Residency
pub mod Masking
pub mod Tenancy
pub mod Cost
pub mod CryptoShred
pub mod Prompts
pub mod Evaluation
pub mod Failsafe
pub mod Instrumentation
pub mod Redaction
pub mod Export
pub mod Tests
pub mod TraceContext
