-- ===== src/Common.antt =====
-- Go package internal/common: the ICD's constants, the station and heap data, the send queues, the
-- delay feeds, the heap accumulator and the scan runner.
pub mod Constants
pub mod Heap
pub mod Time
pub mod Pools
pub mod Queue
pub mod Channels
pub mod Accumulator
pub mod ScanRunner
pub mod Delay
pub mod Control
