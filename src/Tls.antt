-- ===== src/Tls.antt =====
-- TLS/tls: a TLS 1.2 library written by hand.
pub mod Bytes
pub mod Crypto
pub mod Prf
pub mod Cipher
pub mod Connection
pub mod Messages
pub mod Handshake
pub mod ServerFsm
pub mod ClientFsm
pub mod Keys
pub mod CertificateVerify
pub mod Hello
pub mod Flight
pub mod Finish
pub mod Agreement
pub mod Files
pub mod Echo
pub mod Secrets
pub mod KeyExchange
mod Tests
