-- ===== src/Fs.antt =====
-- FLOPFS, the file system of the boot floppy (src/fs.c and the files that it includes).
pub mod Alloc
pub mod Bad
pub mod Check
pub mod Device
pub mod Dirs
pub mod Defrag
pub mod Drive
pub mod Entry
pub mod Marks
pub mod Move
pub mod Path
pub mod Plan
pub mod Probe
pub mod Read
pub mod Retry
pub mod Volume
pub mod Write
