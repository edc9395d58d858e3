-- ===== src/Synth.antt =====
-- Go package internal/synth: the synthesis of tones and noise.
pub mod Noise
pub mod Positions
pub mod Tone
pub mod Config
pub mod Streamer
pub mod Ticks
pub mod Quantized
pub mod Memory
