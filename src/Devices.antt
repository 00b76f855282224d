-- ===== src/Devices.antt =====
-- The listing of devices: src/Device.h, against its counterpart in src/c/transport.c, and
-- src/c/device.c.
pub mod Find
pub mod Info
mod Visits
mod Tests
