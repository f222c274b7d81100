-- ===== src/Core.antt =====
-- Package core: the commands, the handshake messages and their encoding.
pub mod Protocol
pub mod Hello
