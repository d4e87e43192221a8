-- ===== src/Ash.antt =====
-- src/ezsp/ashv2-codec.cpp: the ASH version 2 framing between the host and the adapter.
pub mod Crc
pub mod Codec
pub mod Stuffing
pub mod Randomize
