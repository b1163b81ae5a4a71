-- ===== src/Dns.antt =====
-- The DNS message codec: include/corosig/io/dns/Protocol.hpp and src/io/dns/Protocol.cpp.
pub mod Errors
pub mod Span
pub mod Wire
pub mod Name
pub mod Labels
pub mod Header
pub mod Rdata
pub mod Decoder
pub mod Encode
mod Tests
