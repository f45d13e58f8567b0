-- ===== src/Ack.antt =====
-- Receive-side acknowledgement state of pkg/petlibro/recv.go: which AV sequence positions were
-- seen on the wire, and the type-0x09 reports made from them.
pub mod Ranges
pub mod Receive
pub mod Window
pub mod Reliable
