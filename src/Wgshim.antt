-- ===== src/Wgshim.antt =====
-- internal/wgshim: the obfuscating transport around WireGuard's UDP packets.
pub mod Codec
pub mod PathManager
