-- ===== src/Vfs.antt =====
-- src/vfs.hpp and src/vfs.cpp: the tree of folders and files that a container and the containers in it
-- make. A shared pointer is the number of its object. The locks are left out: a step of the model is a
-- call that nothing comes between.
pub mod Path
pub mod Interface
pub mod Tree
pub mod Walk
pub mod Visited
pub mod Resolved
pub mod Maps
pub mod Registers
pub mod Toy
pub mod Stops
pub mod Every
mod Tests
