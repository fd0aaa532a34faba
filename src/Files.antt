-- ===== src/Files.antt =====
-- ECMeta/KeyValueEngine.c: the files by their keys.
mod Item
mod Entries
mod Lists
mod Chain
mod Unlink
mod Table
mod Delete
mod Push
mod Insert
mod Tests
