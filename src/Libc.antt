-- ===== src/Libc.antt =====
-- What the program uses of the C library, on byte lists: <string.h>, <ctype.h>, strtol, fgets.
pub mod Strings
pub mod Numbers
pub mod Stdio
pub mod Scan
pub mod Decimal
