-- ===== src/Examples.antt =====
-- examples/: the programs that use the library.
pub mod ChatRoom
pub mod FormAction
pub mod Pages
