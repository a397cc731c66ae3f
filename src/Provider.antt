-- ===== src/Provider.antt =====
-- src/provider/service-provider.ts: the messages of a ServiceProvider. The children model the
-- frames on the wire, the pool of pending requests, the answers, and the handling of a request.
pub mod Frame
pub mod Pool
pub mod Delivery
pub mod Answer
pub mod ApiPath
pub mod Request
pub mod Counting
pub mod Answering
pub mod Channels
pub mod Identity
pub mod Names
mod Tests
