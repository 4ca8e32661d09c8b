-- ===== src/Api.antt =====
-- src/api: the HTTP server, its handlers and its responses.
pub mod Types
pub mod Health
pub mod Handlers
pub mod Server
pub mod Binding
pub mod Threads
pub mod Calls
pub mod Recovery
pub mod Answers
pub mod Replies
pub mod Loading
pub mod Checked
