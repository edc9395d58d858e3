-- ===== src/Cmd.antt =====
-- The programs under cmd.
pub mod Exit
pub mod PcapDump
pub mod NoiseStream
