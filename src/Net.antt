-- ===== src/Net.antt =====
-- lantun-core/src/net: the loops of the forwarders. A read of the tunnel gives `None` at the end of
-- the stream, a read of a socket only its bytes; `buf[..n]` is the list of bytes itself.
pub mod Tcp
pub mod Udp
pub mod Readers
