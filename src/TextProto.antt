-- ===== src/TextProto.antt =====
-- internal/textproto: readers and io.Copy, the line reader, the dot encoding, the connection.
pub mod Io
pub mod Dot
pub mod Conn
pub mod Server
