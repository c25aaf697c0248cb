-- ===== src/Golang.antt =====
-- What the program uses of Go's standard library: numbers in text, trimming, hex digits, base64,
-- HTTP headers and query strings. These are the library's functions on byte strings, not the client's code.
pub mod Positional
pub mod Strings
pub mod Strconv
pub mod ParseInt
pub mod BigInt
pub mod Hex
pub mod Header
pub mod Values
pub mod Base64
