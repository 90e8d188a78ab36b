-- ===== src/FullWorkflow.antt =====
-- packages/runtime/src/workflow/full-workflow-runtime.ts: a parent session that is taken through the
-- stages of the full lane by approval gates. Its children hold the state, the store, the operations,
-- and what is proved of them.
mod Tests
pub mod Types
pub mod Store
pub mod Ops
pub mod Role
pub mod Keep
pub mod Sound
pub mod Preserve
pub mod Gates
pub mod Rows
pub mod Returns
