-- ===== src/Memcached.antt =====
-- The memcached clone: src/handler/memcached.c and src/handler/mc.
pub mod Assoc
pub mod Item
pub mod Lru
pub mod Items
pub mod Number
pub mod Store
pub mod Tokens
pub mod Conn
pub mod Read
mod Tests
