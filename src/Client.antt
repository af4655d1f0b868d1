-- ===== src/Client.antt =====
-- src/ads_protocol_client: AdsClient.h, AdsClient.cpp, Watcher.h and main.cpp, the client that
-- multiplexes subscriptions over one stream.
pub mod State
pub mod Requests
pub mod Streams
pub mod Watches
pub mod Chat
pub mod Chatting
pub mod Examples
pub mod Watched
pub mod Loop
pub mod Steps
pub mod Content
pub mod Watching
pub mod Unwatching
pub mod Liveness
pub mod Lasting
pub mod Asking
pub mod Released
pub mod Added
pub mod Returning
pub mod Silent
pub mod Resuming
pub mod Resumed
pub mod Answers
pub mod Shutdown
pub mod Program
pub mod Serving
pub mod Sessions
