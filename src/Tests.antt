-- ===== src/Tests.antt =====
-- Concrete runs of the modelled code, and the theorems at concrete inputs.
mod Command
mod Utf8
mod Entities
mod Connection
mod Hub
mod Login
mod Letters
mod Sockets
mod Blooms
mod Formats
mod Xml
