-- ===== src/Tests.antt =====
-- Runs of the model at concrete inputs, over the decimal arithmetic of Float.Fixed.
pub mod Spead
pub mod Queue
pub mod Accumulator
pub mod Noise
pub mod Streamer
pub mod Server
pub mod Sender
pub mod Delay
pub mod Pcap
pub mod ScanRunner
pub mod Pools
pub mod Starting
pub mod PcapDump
pub mod NoiseStream
