-- ===== src/Runs.antt =====
-- Runs on concrete inputs, which show that the hypotheses of the theorems can be met.
pub mod Bytes
pub mod Codec
pub mod Adapter
pub mod Messages
pub mod Library
pub mod Firmware
pub mod GreenPower
pub mod Link
