-- ===== src/Tls.antt =====
-- tls/: the C programs whose reports the dashboard stores. OpenSSL, the sockets and the clock are
-- what their calls return. A C string is its characters up to the NUL.
pub mod Common
pub mod Options
pub mod Server
pub mod Benchmark
pub mod Delivery
pub mod Registration
pub mod Handshake
pub mod Rounds
pub mod Completeness
