-- ===== src/Lib.antt =====
-- Fuse-Nx: reading the archive formats of a console, each inside another, most of them encrypted.
--
-- The program opens a file on disk, recognises an archive in it, and shows the archive's entries as
-- files again, which may be archives in turn. The library (include/fnx, lib) has the files, the
-- ciphers, the keys and the formats; the program (src) reads key files and shows the result.
--
-- - Prelude and its children: lists, slices of buffers, bytes of numbers, machine words. A word keeps
--   its wrap-around written out (`u64`, `u32`, `sub64`).
-- - Utils: include/fnx/utils.hpp (align_down, align_up, FourCC, is_nonzero).
-- - Io: include/fnx/io.hpp and lib/io.cpp. A `FileBase` is a `File`, an `OffsetFile` or a `CtrFile`; the
--   bytes on disk are a `Stream`, passed from call to call. `read_from` is `read` of the three classes,
--   with `read`, `read_at` and the rest as in the base class. Io.View says which bytes a file stands
--   for, and the other children relate the reads to it. Io.Handles is about the `FILE` that a `File` and its
--   clones share.
-- - Crypto and its children: include/fnx/crypto.hpp and lib/crypto.cpp, built against libgcrypt. A
--   handle is the list of the calls made on it, and `Backend`, a parameter, says what libgcrypt answers.
--   `IsCtrMode` and `IsXtsMode` are what its documentation says of these modes; the cipher itself is
--   free. ToyCipher has an instance, for the examples. Crypto.Owners is about which object owns which handle.
-- - Formats.Table with Formats.Pfs and Formats.Hfs: include/fnx/formats/pfs.hpp, hfs.hpp, lib/pfs.cpp and
--   lib/hfs.cpp. The two classes differ in the magic and in the size of an entry.
-- - Keyset and its children: include/fnx/keyset.hpp and lib/keyset.cpp. Views keep the memory behind
--   them, because the comparison reads past a view's end. An `Outcome` tells a result, an exception,
--   and an access out of bounds apart.
-- - Keys and its children: src/keys.cpp, from a file's text to the keys that it sets.
-- - Nca and its children: include/fnx/formats/nca.hpp and lib/nca.cpp. A header is its 0xc00 bytes; the
--   static context of decrypt_header is an argument and a result. A section holds the Pfs or RomFs that is
--   constructed on its window. Nca.Sections and Nca.Contents have what the sections show.
-- - Xci and its children: include/fnx/formats/xci.hpp and lib/xci.cpp. Its root table is read like that of
--   an Hfs; a partition holds the state of an Hfs that is constructed on its window.
-- - Romfs and its children: include/fnx/formats/romfs.hpp and lib/romfs.cpp. A pointer to a record is its
--   offset in the table, a pointer to an entry its number. A `Run` returns, faults, or goes on after the
--   rounds that it was given. Romfs.Siblings, Romfs.Entries and Romfs.Lookup relate the loops to the chains
--   in the tables.
-- - Hac: include/fnx/hac.hpp, the format that a file's first bytes are those of.
-- - Containers and its children: src/containers.hpp and src/containers.cpp, each format as a folder;
--   Containers.Make is the part of src/vfs.cpp that makes a container of a file. What the containers share
--   is a `World`, which also keeps what is printed for tickets.
-- - Vfs and its children: src/vfs.hpp and src/vfs.cpp. A node's pointer is its number. The tree is over an
--   `Interface`, which `Containers.Make.containers` fills; Vfs.Visited is about a walk of a tree that has
--   been looked into and Vfs.Resolved about finding a folder in it, Vfs.Maps and Vfs.Registers what is registered, Vfs.Stops what callbacks keep, and Vfs.Toy an instance
--   for the examples.
-- - Fuse and its children: src/fuse.cpp, the operations that FUSE calls.
-- - Commands and its children: src/context.hpp, src/find.cpp, src/list.cpp and src/dump.cpp. Commands.Dump has
--   dump's worker as a call, Commands.Threads as a thread that stops between its calls of the file system, and
--   a schedule as the list of who goes next; Commands.Course is where such a thread is.
-- - Options and its children: src/options.hpp, what the program does once its command line is parsed. RE2,
--   fnmatch, the host's disk and libfuse are parameters.
-- - ThreadPool and its children: src/thread_pool.hpp, as a relation of the steps that the threads take: the
--   workers, the owner in `wait` and `stop_workers`, and whoever queues items. A wait on the condition
--   variable ends by a notification or spuriously; runs of the workers alone have neither.
--
-- A read of a nested file is a read of the file that it is a window on, with the position moved, and
-- decrypted when it comes back; a format reads its tables through `read_at` and opens its entries as
-- windows; Nca takes its keys from the key sets, which the key files fill. A container lists files and
-- folders, the tree makes nodes of them, and FUSE and the commands ask the tree.
--
-- Most loops are structural recursion: on the entries, on the sectors that a buffer has
-- (`(size + 0x1ff) / 0x200`, the number of rounds of the source's loop), on the lines of a file, on the
-- elements of a path, on the depth of a walk. The loops over a RomFs's tables and the copying loop of dump
-- need not end, and are given a number of rounds: for siblings that lie behind each other the bytes of the
-- table are enough, for a copy the chunks of the file. A thread of dump takes two
-- steps for a chunk and two more. `none` and `fault` stand for an access out of bounds.
--
-- Not modelled: the paths of the host's disk, the variant built against mbedtls, the mount
-- itself, the walk of dump while its threads copy, a second `stop_workers`, the parsing of the command
-- line, and the Python bindings.
-- Two things are as on the common platform: a null-terminated string is read to its terminator, and a
-- `KeySet` starts with zeros. The constants of FUSE's operations are those of Linux.
mod Prelude
pub mod Utils
pub mod Crypto
mod ToyCipher
pub mod Io
pub mod Formats
pub mod Keyset
pub mod Keys
pub mod Nca
pub mod Xci
pub mod Romfs
pub mod Hac
pub mod Containers
pub mod Vfs
pub mod ThreadPool
pub mod Fuse
pub mod Commands
pub mod Options
