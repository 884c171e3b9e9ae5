-- ===== src/Smbios/Tests.antt =====
-- The theorems on the SMBIOS code at concrete machines and options.
mod Entry
mod Build
mod Tables
