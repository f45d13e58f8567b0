-- ===== src/Media.antt =====
-- The inner packets of pkg/petlibro/assembler.go: the frame-info trailer, the two media layouts
-- and the reliable control family.
pub mod Trailer
pub mod Extended
pub mod Normal
pub mod Control
