-- ===== src/Text.antt =====
-- C strings as lists of bytes, and the parts of the C library that the program uses on them:
-- number conversions in Numeral, scanning in Scan, the `strip` of src/config/app_config.c in Strip, snprintf into
-- a buffer in Buffer, the formats of a line for the terminal in Print.
pub mod Bytes
pub mod Numeral
pub mod Scan
pub mod Strip
pub mod Buffer
pub mod Print
