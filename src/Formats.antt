-- ===== src/Formats.antt =====
-- include/fnx/formats and lib: the archive formats.
pub mod Table
pub mod Pfs
pub mod Hfs
