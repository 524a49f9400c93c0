-- ===== src/Http.antt =====
-- webserver/include/http_conn.h and webserver/src/http_conn.cpp: one HTTP connection.
pub mod Types
pub mod CStrings
pub mod Nul
pub mod Parse
pub mod Lines
pub mod Fields
pub mod Headers
pub mod Request
pub mod Answering
pub mod RequestLine
pub mod Progress
pub mod Respond
pub mod Response
pub mod Sending
pub mod Exchange
pub mod Target
pub mod Receiving
pub mod Transfer
pub mod Session
