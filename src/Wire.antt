-- ===== src/Wire.antt =====
-- The bytes on the wire: pkg/petlibro/templates.go.
pub mod Bytes
pub mod Frames
