-- ===== src/Assembler.antt =====
-- The reassembler of pkg/petlibro/assembler.go: from decrypted datagrams to access units.
pub mod Channel
pub mod AnnexB
pub mod Counts
pub mod Stream
pub mod Output
pub mod Release
pub mod Emit
pub mod Buffer
pub mod Delivery
pub mod Datagram
