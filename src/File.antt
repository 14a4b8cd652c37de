-- ===== src/File.antt =====
-- The files of libvdf/file.c: names, creation, deletion, search, and the operations on one file. A file
-- is reached by its number; `new` is the number of a file that is not in use, which malloc gives.
-- Allocation is taken to succeed. A string is the list of its characters, without the 0 behind it.
pub mod Names
pub mod Entries
pub mod Props
pub mod Shortname
pub mod Tracked
pub mod Creation
pub mod Deletion
pub mod Orphans
pub mod Frozen
pub mod Tests
