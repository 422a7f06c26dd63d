-- ===== src/World.antt =====
-- The state that the coordinator's services share, and the actions on it.
mod Rows
mod State
mod Actions
mod Endings
mod Steps
pub mod Keys
pub mod Moves
pub mod Samples
pub use Rows.*
pub use State.*
pub use Actions.*
pub use Endings.*
pub use Steps.*
unfoldable pub use Actions.{
  look, manage, update_returning, set_ticket, get_ticket, delete_ticket, set_session, get_session,
  delete_session, throw, maybe, pure, fail, ◌>>=◌, attempt, settle, require, present, choose, when,
  call, query, update, insert_row, clock, new_uuid, audit, broadcast, write_audit_log, audited,
  announced,
}
