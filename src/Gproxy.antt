-- ===== src/Gproxy.antt =====
-- package/telego-pkg/src/pkg/gproxy
pub mod Writer
pub mod Budget
mod Examples
