-- ===== src/Store.antt =====
-- store.py. Each directory of records is a list in the order in which the files were last written
-- (the order of `st_mtime_ns`, taken to grow with each write). A state file holds the JSON that
-- was written, with sorted keys; of the other records the model keeps the record itself, since its
-- file is read back as the same record up to the order of the keys in its dicts.
mod Directory
mod Records
pub mod States
pub mod Lines
pub mod Log
pub mod Files
pub mod Proposals
pub use Records.{Store}
unfoldable pub use Directory.{Dir, find, exists, remove, write_once, overwrite, contents}
pub use Directory.{exists-find, find-append, find-overwrite, find-write_once, find-write_once_self}
