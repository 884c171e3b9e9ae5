-- ===== src/Smbios/Layout.antt =====
-- smbios.h: the structures that the program writes, field by field, and their packed layout.
pub mod Fields
pub mod System
pub mod Devices
pub mod Memory
pub mod Sensors
pub mod Anchor
