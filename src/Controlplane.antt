-- ===== src/Controlplane.antt =====
-- The replicated control plane, internal/controlplane.
pub mod RaftLog
pub mod Bolt
pub mod Store
pub mod Command
pub mod Ownership
pub mod Machine
