-- ===== src/FakeTls.antt =====
-- package/telego-pkg/src/pkg/transport/faketls: TLS record framing and record sizing; and the writer
-- of gproxy/middleend_frontend.go that puts both together.
pub mod Record
pub mod Sizer
mod Examples
