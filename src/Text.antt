-- ===== src/Text.antt =====
-- baselib/Text.cpp: the conversions between code points and UTF-8.
pub mod Utf8
