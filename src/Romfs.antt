-- ===== src/Romfs.antt =====
-- include/fnx/formats/romfs.hpp and lib/romfs.cpp: the file system of a program's data. Directories and
-- files are records in two tables of bytes, chained to their siblings by offsets, and reached through
-- hash tables by name. A pointer to a directory or a file is its place in the vector of all of them, a
-- pointer into a table is an offset.
pub mod Types
pub mod Tables
pub mod Parse
pub mod Find
pub mod Siblings
pub mod Entries
pub mod Lookup
mod Tests
