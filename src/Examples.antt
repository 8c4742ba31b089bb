-- ===== src/Examples.antt =====
-- Tests, and the theorems at concrete inputs.
mod Addresses
mod Calls
mod Codec
mod Commands
mod Connections
mod Entries
mod Exchange
mod Files
mod Lines
mod Maps
mod Paths
mod Serving
mod Sessions
mod Sockets
mod Wire
mod Words
