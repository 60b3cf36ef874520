-- ===== src/Tests.antt =====
-- The properties at concrete inputs, by the part of the program that they are about.
pub mod Connections
pub mod Requests
pub mod Streams
pub mod Texts
pub mod Servers
pub mod Daemons
pub mod LoadTests
pub mod Histories
