-- ===== src/Terminal.antt =====
-- The terminal page, web/src/terminal.js.
pub mod State
pub mod Connection
pub mod Backoff
pub mod Budget
pub mod Invariant
pub mod Closing
pub mod Rejected
pub mod Progress
pub mod Recovery
pub mod Protocol
pub mod Output
pub mod Resize
pub mod Clipboard
pub mod Keys
pub mod Wording
