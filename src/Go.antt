-- ===== src/Go.antt =====
-- What the program uses of Go's standard library, over bytes.
pub mod Flags
pub mod Strings
pub mod Io
pub mod Strconv
pub mod Sort
pub mod Url
pub mod Fmt
