-- ===== src/Smbios.antt =====
-- smbios.c and smbios.h: the tables that describe the machine to its firmware.
pub mod Layout
pub mod Options
pub mod Table
pub mod State
pub mod Qemu
pub mod Select
pub mod Assumptions
pub mod Build
pub mod Tables
pub mod Entry
pub mod Sample
mod Tests
