-- ===== src/Acpi.antt =====
-- kernel/acpi: finding the tables, and the MADT.
pub mod Tables
pub mod Madt
