-- ===== src/Fs.antt =====
-- The C transport, src/c/transport.h and src/c/transport.c, less fs_rdma_do_reads.
pub mod Config
pub mod Foreign
pub mod Context
pub mod Device
pub mod Holds
pub mod Setup
pub mod Teardown
pub mod Resources
pub mod Handlers
pub mod Frame
pub mod Loop
pub mod Inputs
mod Tests
