-- ===== src/AdcCommand/RoundTrip.antt =====
-- adchpp/AdcCommand.cpp: what `toString` writes, `parse` reads back.
pub mod Tokens
pub mod Line
pub mod Header
pub mod Whole
