-- ===== src/Peer.antt =====
-- packages/opencode-app/src/worker/worker-jsonrpc-stdio.ts: the JSON-RPC peer of the worker. Its
-- children hold the state, the handling of one message, the reading of frames, the operations, and
-- what is proved of them.
mod Tests
pub mod State
pub mod Incoming
pub mod Reader
pub mod Ops
pub mod Accounting
pub mod Conservation
pub mod Front
pub mod Stream
pub mod Chunks
pub mod Exchange
pub mod Lifecycle
