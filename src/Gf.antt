-- ===== src/Gf.antt =====
-- The C++ side of the transport, src/Transport.cc and src/Qp.cc, which is written over the structures
-- and functions of the RDMA transport of GlusterFS.
pub mod Foreign
pub mod Loop
pub mod Init
pub mod Qp
mod Protocol
mod Tally
mod Halts
mod Tests
