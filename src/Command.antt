-- ===== src/Command.antt =====
-- cmd/httpadapter: the program that runs a server, a client or tunnels. What it computes from its
-- configuration; the flags, the listeners and the logging are left out.
pub mod Rewriter
pub mod Settings
pub mod Tunnels
