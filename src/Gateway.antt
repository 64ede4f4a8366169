-- ===== src/Gateway.antt =====
-- services/gateway: how a request is translated, which workers it is sent to, and how its stream
-- begins.
pub mod Translate
pub mod Select
pub mod Admission
pub mod Stream
pub mod Keys
pub mod Dispatch
pub mod Replies
pub mod Collect
pub mod Handler
mod Middleware
