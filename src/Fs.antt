-- ===== src/Fs.antt =====
-- The files of vibeio/src/fs.
pub mod OpenOptions
pub mod File
