-- ===== src/Server.antt =====
-- internal/server: what goes over the wire (`Convert`), the calls of grpc_server.go (`Grpc`), the handlers of
-- http_server.go (`Http`), what the calls answer (`Answers`), and how the two servers agree (`Agreement`).
pub mod Convert
pub mod Grpc
pub mod Answers
pub mod Http
pub mod Agreement
