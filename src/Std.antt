-- ===== src/Std.antt =====
-- What the source uses of Go's standard library: package strings, package net/url and package
-- strconv, on strings as byte sequences.
pub mod Strings
pub mod Url
pub mod Strconv
