-- ===== src/Util.antt =====
-- The helpers without a C library, src/util.c.
pub mod Address
pub mod Base64
pub mod Dates
pub mod Format
mod Hash
pub mod Log
pub mod Number
pub mod Paths
pub mod Sizes
pub mod Sort
pub mod Streams
pub mod Strings
