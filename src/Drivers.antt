-- ===== src/Drivers.antt =====
-- firmware/main/drivers: the drivers of the station's inputs and of its output.
pub mod Led
pub mod Encoder
pub mod Digital
pub mod Analog
