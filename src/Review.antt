-- ===== src/Review.antt =====
-- The review commands: the handlers of infra/repositories.py with domain/invariants.py and
-- infra/issue_workflow.py. The commands take the locks of their rows, so concurrent requests are
-- sequences of commands; a command that raises is rolled back by review_http/command_routes.py.
pub mod Store
pub mod Guards
pub mod Issues
pub mod Projects
pub mod Items
pub mod Finalize
pub mod Revoke
pub mod Execute
pub mod History
pub mod Facts
pub mod Workflow
pub mod Sync
mod Examples
