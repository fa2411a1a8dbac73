-- ===== src/FileServer.antt =====
-- http_server.c, the file service: a stream asks for a file, and the server sends it.
pub mod Reader
pub mod ContentType
pub mod Types
pub mod Write
pub mod Samples
pub mod Process
pub mod Read
pub mod Hq
pub mod Life
