-- ===== src/Smbios/Build.antt =====
-- smbios.c: the functions that build the structures, one module for each group of types.
pub mod Core
pub mod System
pub mod Processor
pub mod Devices
pub mod Memory
pub mod Sensors
pub mod Sizes
pub mod Lengths
pub mod Handles
