-- ===== src/Fat32/Directory.antt =====
-- drivers/fat32/directory.c: `Entry` models the entries and `Walk` the
-- functions on a directory, `Listing` its listing with long names.
pub mod Entry
pub mod Walk
pub mod Listing
