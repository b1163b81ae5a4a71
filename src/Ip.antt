-- ===== src/Ip.antt =====
-- The address types of include/corosig/io/Sockaddr.hpp and src/io/Sockaddr.cpp.
pub mod V4
pub mod V6
mod Tests
use corosig.Prelude.{ℕ, List}

-- The four octets of `m_value` as they lie in memory, which is network byte order.
pub record Ipv4Addr : Type 0 where
  pub octets : List ℕ

-- The sixteen octets of `m_value`.
pub record Ipv6Addr : Type 0 where
  pub octets : List ℕ
