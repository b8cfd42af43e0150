-- ===== src/Lib.antt =====
-- Verification of the explorer backend of the Phantasma chain: a worker that copies blocks from RPC
-- nodes into a database, and an HTTP API that serves them. The files here model the parts of both
-- that decide something: what is let in, what is asked of a node and how often, what is taken from
-- its answers, and what is computed from stored events.
--
-- Base: helpers on lists, maps, text (a list of code points), decimal printing and integers.
-- RateLimit (crates/http-api/src/rate_limit.rs): Window is `SlidingWindow`, Keys is
--   `build_key_limits`, ClientIp is `resolve_client_ip`, Limiter is `RateLimiterInner` with
--   `admit`, `try_enter` and `rate_limit_middleware`, and Gate runs the compare-and-swap loop of
--   `try_enter` step by step for many tasks. The clock enters as the current segment; the parsing
--   and the printing of addresses are parameters.
-- Relief (crates/ingestion/src/driver.rs): `RpcReliefState`, `relief_stall_backoff` and
--   `failed_pass_backoff`; durations are in seconds.
-- FetchPlan (crates/ingestion/src/lib.rs, crates/config/src/lib.rs): `plan_fetch_window`, which
--   takes the relief mode as `load_shed`.
-- Rpc (crates/rpc/src/lib.rs): `run_failover` and `try_endpoints_once` with the client's counter;
--   answers of nodes are a function of the number of calls made, the endpoint and the timeout.
-- Pages (crates/ingestion/src/driver.rs): `collect_account_pages`; the node is a function of the
--   page number and the cursor.
-- Ingest (crates/ingestion/src/driver.rs, `advance_cursor` of crates/db/src/lib.rs):
--   `project_window_sequentially` over a window of FetchPlan, and in Ingest.Pipeline
--   `project_window_pipelined` with `record_fetched` and `write_decoded_block`. The pool, the node's
--   block at a height and the writes of a block are parameters; the database is the cursor with the
--   heights of the committed blocks, and a block's transaction changes both or neither. In a pipelined
--   pass, which fetches are finished at each turn of the loop, which cancelled ones still come back
--   and which panic is a schedule, an argument of the pass. Ingest.Refetch is
--   `fetch_decoded_block_for_projection` with `try_complete_transaction` and the tests of
--   crates/ingestion/src/lib.rs; what the RPC client returns, by the number of its calls, are parameters.
-- Worker (crates/ingestion/src/driver.rs): `sync_once`, which composes the plan of FetchPlan, the
--   network guard, the projections of Ingest and the state of Relief, and passes one after the other.
--   Worker.Loop is the block loop of `run_until_shutdown` after each pass, without the tasks that it
--   starts and the shutdown signal.
-- Staking (crates/db/src/staking.rs): the replay of stake events. Transactions has the rows of one
--   transaction (`deduplicate_…`, `classify_…`, `apply_stake_snapshot_transaction`) and the
--   reverse replay, Daily the forward build; Grouping, Forward and Curve read both by transactions.
--   The parent has `apply_stake_snapshot_stake_delta`, Loading the loading of stakes, and Intx reads
--   the result of an inflation. The texts of anomalies are data, `BigInt` and the `i64` of days are ℤ.
-- Api (crates/http-api/src/support.rs, crates/http-api/src/lib.rs): values of the HTTP API. Integers is
--   `str::parse` of an integer, OffsetCursor and PageCursor the cursors, OffsetPages the pages of the
--   list handlers, Hex the encoded bytes, Amounts `format_token_amount`, Parameters the small rest.
--   The database's rows, Base64 and Unicode upper case are parameters, the texts of errors data.
-- Vm (crates/http-api/src/support.rs): `disassemble_script_bytes`. Reader is `VmScriptReader`,
--   Opcodes the names, Instructions the printing, Disassembly the loop, Assembly an assembler that
--   the code does not have, to state what it reads. The texts of strings, big integers and hex
--   data are parameters.
--
-- Fuel: the disassembler's loop gets as many rounds as the script has bytes, since each round reads
-- one; the reverse replay and a day of the forward build as many as there are rows, since each takes
-- a transaction's; the loop over the days as many as there are days, by division; a number's
-- printing as many as its value. Loops over ranges take the number of turns that are left. The
-- pipeline's loop gets one turn of its schedule for each round; filling the slots gets a round for
-- each height that is left, and writing one for each buffered block. The repair of a block gets one
-- round more than the block has transactions, and the fetch of a block the 25 attempts of the source.
-- Machine integers keep their wrap-around or saturation where the source has it; heights next to
-- the last 64-bit one and the counts of stakers are taken without it.
--
-- Not modelled: SQL, the decoding of blocks, the maintenance tasks of the worker, HTTP handlers, configuration
-- files, feeds, and process start-up.
mod Base
pub mod RateLimit
pub mod Relief
pub mod Api
pub mod FetchPlan
pub mod Rpc
pub mod Pages
pub mod Ingest
pub mod Staking
pub mod Vm
pub mod Worker
