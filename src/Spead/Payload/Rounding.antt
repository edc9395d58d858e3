-- ===== src/Spead/Payload/Rounding.antt =====
-- packetizer.go: QuantizeComponent against `math.Round` followed by clampToInt8, in exact arithmetic.
