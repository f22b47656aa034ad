-- ===== src/Epoll.antt =====
-- The kernel's epoll instance as an interface: what `epoll_ctl` and `close` are documented to do to
-- the set of watched descriptors. An event mask is 1 for EPOLLIN, 2 for EPOLLOUT, 3 for both.
mod Interface
pub mod Kernel
pub use Interface.*
