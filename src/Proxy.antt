-- ===== src/Proxy.antt =====
-- src/proxy.rs: the pipeline that a request runs through. `Screen` is what happens before a backend
-- is chosen, `Forward` the request that is sent, `Reply` the response, and `Pipeline` their
-- composition, `handle_request`.
pub mod Crates
pub mod Screen
pub mod Forward
pub mod Reply
pub mod Pipeline
pub mod Policy
pub mod Sent
pub mod Answer
pub mod Effects
pub mod Admitted
pub mod Client
pub mod Framing
