-- ===== src/UtHash.antt =====
-- The calls of the hash table library src/common/uthash.h, a copy of another project: what the
-- macros HASH_FIND, HASH_ADD and HASH_DEL are documented to do, as an interface that the components
-- take as a parameter, over integer keys. `keys` lists the keys in the order of insertion, which is
-- the order in which uthash iterates. A key must not be added twice, and an element that is deleted
-- must be in the table; the laws ask for that.
mod Interface
pub mod Assoc
pub use Interface.*
