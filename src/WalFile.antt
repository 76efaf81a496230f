-- ===== src/WalFile.antt =====
-- crates/raft-storage/src/wal: the records of the write-ahead log, the file's writer and its reader.
-- The checksum of crc32fast and the files of the operating system are parameters.
pub mod Record
pub mod Reader
pub mod Writer
pub mod Framing
pub mod Recovery
pub mod Reopen
