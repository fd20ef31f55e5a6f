-- ===== src/WebProxy.antt =====
-- package/telego-pkg/src/pkg/webproxy
pub mod Frame
pub mod Limits
pub mod BoundedSet
pub mod StreamHistory
pub mod Session
