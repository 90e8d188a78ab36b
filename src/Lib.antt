-- ===== src/Lib.antt =====
-- Verification of the TypeScript core of dh-kit.
--
-- Two processes share the work: a Rust host, and a TypeScript worker that the host starts and talks to
-- over standard input and output. The worker's workflows keep their state in a file per session and in
-- the rows of a local database. Modelled are the parts that carry this program's own logic:
--
-- - Kit.antt and its children: Boolean tests on the native numbers, lists, ASCII text as codes, results.
-- - Json.antt: the values of type `unknown` that JSON or MessagePack carries.
-- - Codec.antt (packages/opencode-app/src/bridge/stdio-codec.ts): the frames that carry a message over
--   a pipe. `encode_rpc_frame` is `encodeRpcFrame`, `parse_frame_headers` is `parseFrameHeaders`,
--   `find_frame_header_end` is `findFrameHeaderEnd`, and so on. An exception is an `err`. `JSON` and
--   `@msgpack/msgpack` are the parameter `Serializer`. Codec/Decimal, Codec/Lines and Codec/Frame prove
--   that what is written is read.
-- - Peer.antt (packages/opencode-app/src/worker/worker-jsonrpc-stdio.ts): the class
--   `WorkerJsonRpcPeer`, over the codec. Peer/State holds its fields (`Peer`, `Session`, `Reader`) and
--   what it does to the outside (`Effect`: a promise is settled, a frame is written, a handler is
--   called). Peer/Incoming is `handleIncoming` and below, Peer/Reader is `drainFrames`, Peer/Ops holds
--   the methods and the callbacks of the streams and timers, each one `Input` of `step`; `run` is a row
--   of inputs. What a handler, the stream or a timer does comes in as an input, and inputs are handled
--   one at a time, in any order.
-- - FullWorkflow.antt (packages/runtime/src/workflow/full-workflow-runtime.ts and
--   packages/shared/src/types/full-workflow.ts): the full workflow. FullWorkflow/Types has the types and
--   constants, FullWorkflow/Store the state files and rows (`World`) with `persist_parent_session`,
--   `write_state`, `read_state` and `record_audit`, FullWorkflow/Ops the exported operations. An
--   operation maps a world to a result and a world; where it throws, what it wrote before stays. Ids,
--   clock, subagent, context planner and `trim` are the parameter `Host`.
-- - Retry.antt (packages/runtime/src/reliability/retry-policy.ts): which failures of a chat provider are
--   tried again, and after what delay. Retry/Chat (retrying-chat-provider.ts there) is the loop, with
--   its calls, audits and sleeps as `Event`s. The provider's answers and the clock are functions of the
--   attempt; `trim`, `Number` and `Date.parse` are the parameter `Platform`.
-- - Tui.antt (apps/tui/src/state.ts, with the events of packages/shared/src/types/run.ts): the state of
--   the terminal interface. Tui/State has the types, Tui/Events `applyRunEvent` and the labels,
--   Tui/Reducer `reduceTuiState` with its helpers on sessions. The text of a number is a parameter.
-- - WorkItems.antt (packages/runtime/src/workflow/work-item-planner.ts): `planWorkItems` is
--   `plan_work_items`, with its loop as `schedule`, and `groupParallelizable` is `group_parallelizable`.
--   WorkItems/Lists is about the groups, WorkItems/Rounds about the loop; Order, Partition, Progress and
--   Ready about the plan.
-- - Paths.antt (packages/intelligence/src/workspace/scan-paths.ts): which paths are inside a workspace.
--   `node:path` is the parameter `PathModule`.
-- - Chunker.antt (packages/retrieval/src/semantic/chunker.ts): `chunkFile` is `chunk_file`, over
--   `chunk_by_symbols` and `chunk_by_window`, whose loop is `windows`. Its numbers are integers, since a
--   window can start below zero. Reading a file and `trim` are the parameter `Workspace`.
-- - ChunkStore.antt (packages/retrieval/src/semantic/embedding-pipeline.ts, with the table of
--   packages/storage/src/sqlite/repositories/chunks-repo.ts): `persistChunks` and the rows that
--   `refreshFileChunks` leaves, and `filterFilesNeedingRefresh` of
--   packages/runtime/src/jobs/index-job-runner.ts. The hash of a text is a parameter.
-- - RunGuard.antt (packages/runtime/src/session/session-run-state.ts): the registry of busy sessions and
--   `withSessionRunGuard`. A guard's callbacks and its function are settled by events, so every
--   interleaving of guards is a list of events. RunGuard/Steps has what a step changes.
-- - ContextPlanner.antt (packages/runtime/src/context/context-planner.ts): `inspectContext` is
--   `inspect_context` over the files that it writes (`World`), with `dedupeEntries` as `dedupe_entries`.
--   The type and the order of scores, the retrieval and the file system are the parameter `Platform`; a
--   cache file's name may be too long to be written.
--
-- Bounds and fuel: `windows` takes one unit for each line and one more, as many as windows that move
-- forward need; `schedule` takes one for each schedulable item and one more, which is enough since each
-- round takes an item; `chat` takes one for each of its max_retries + 1 attempts, and always ends with a
-- result; `drain_frames` takes the buffer's length plus one as fuel, which is enough since each
-- frame takes at least four bytes off the buffer; `decimal n` takes n + 1, and a number has at most as
-- many digits as that. Lengths are exact up to `max_safe_integer`, the bound that the code tests.
--
-- Not modelled: calls of the peer by a handler that runs while the frames of its chunk are still being
-- taken out, and the end of the process by an unhandled rejection; gates and stages that the types
-- exclude; other failures of writing a file; the text of error messages beyond their parts; encodings
-- other than ASCII in headers; the other packages, which assemble reports, call services, or read and
-- write files.
pub mod Kit
pub mod Json
pub mod Codec
pub mod Peer
pub mod FullWorkflow
pub mod Retry
pub mod Tui
pub mod WorkItems
pub mod ChunkStore
pub mod ContextPlanner
pub mod RunGuard
pub mod Chunker
pub mod Paths
