-- ===== src/Mm.antt =====
-- Memory (src/kernel/mm).
pub mod Heap
pub mod Frames
