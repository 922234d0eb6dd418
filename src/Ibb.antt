-- ===== src/Ibb.antt =====
-- ibb: in-band bytestreams, XEP-0047.
pub mod Stream
pub mod Handler
pub mod Registry
pub mod Transfer
pub mod Tests
