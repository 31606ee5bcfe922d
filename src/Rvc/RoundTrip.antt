-- ===== src/Rvc/RoundTrip.antt =====
-- What the decoder makes of an encoded instruction.
