-- ===== src/Tests.antt =====
-- The theorems at concrete inputs.
mod Receipts
mod Messages
mod Frames
mod Sessions
mod Running
mod Starts
mod Dialling
mod Searches
