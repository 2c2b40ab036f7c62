-- ===== src/Tests.antt =====
-- Small inputs for the components, what the definitions compute on them, and the theorems at them.
mod Lists
mod Queues
mod Loader
mod Frames
mod Tables
mod Locking
mod Timing
mod Scheduling
mod Interrupts
mod Devices
mod Firmware
mod Printing
