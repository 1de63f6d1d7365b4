-- ===== src/P2p.antt =====
-- Device-to-Device sessions, internal/p2p.
pub mod Policy
