-- ===== src/Encoding.antt =====
-- What the program uses of Go's `encoding/base64`, `encoding/hex` and of `%d`: the URL and the
-- standard alphabet, with and without padding. A decoder skips line ends, as the library's does.
pub mod Base64
pub mod Hex
pub mod Query
pub mod Decimal
