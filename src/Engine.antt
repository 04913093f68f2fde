-- ===== src/Engine.antt =====
-- engine.go: how a message runs through a rule chain. The contexts (`DefaultRuleContext`) are
-- objects of a heap; what `SubmitTack` hands to the pool is a list of tasks. The pool runs one task
-- at a time, to its end, and any task of the list may be next. A pool that runs tasks at the same
-- time interleaves the loop of `tell`, which counts a child and submits its task, with those tasks:
-- such runs are not modelled, and `early_child_test` shows the steps with which they go wrong. A
-- pool that refuses a task is left out.
mod Context
mod Run
mod Count
mod Balance
mod Done
mod Telling
mod Adopting
mod Tasks
mod Ending
pub mod Completion
pub mod Aspects
mod Waiting
mod Executing
mod Tests
unfoldable pub use Context.*
unfoldable pub use Run.*
