-- ===== src/Routing.antt =====
-- src/handler_udp/routing: the datagram router. Its local ports (Ports), the checksum of its packets
-- (Checksum), their layout (Packet), its routes (Routes), and the handling of a datagram (Parse).
pub mod Ports
pub mod Checksum
pub mod Packet
pub mod Routes
pub mod Parse
