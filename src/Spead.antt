-- ===== src/Spead.antt =====
-- Go package internal/spead: the SPEAD-64-48 encoder of the SPS-CBF ICD's heap, its quantisation, the
-- batched send loop and the sender pool.
pub mod Wire
pub mod Payload
pub mod Packetizer
pub mod SendLoop
pub mod Sender
