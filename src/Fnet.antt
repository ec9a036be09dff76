-- ===== src/Fnet.antt =====
-- The package fnet: packets of the game protocol (DataPack), the loop that reads them (Reader), and
-- the life of a connection (Connection), connections that are made again (TcpClient) and the workers
-- that handle packets (MsgHandle).
pub mod DataPack
pub mod Reader
pub mod Connection
pub mod TcpClient
pub mod MsgHandle
mod Tests
mod RouterTests
