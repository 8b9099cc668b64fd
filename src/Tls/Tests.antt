-- ===== src/Tls/Tests.antt =====
-- The TLS library on concrete inputs.
mod Toys
mod Wire
mod Exchange
mod Handshakes
mod Programs
