-- ===== src/Interop.antt =====
-- http_server.c, the interop mode: a stream reads a request and answers it by itself.
pub mod Types
pub mod Start
pub mod Rest
pub mod Read
pub mod Write
pub mod Samples
pub mod Served
pub mod Session
