-- ===== src/Fs.antt =====
-- File systems (src/kernel/fs).
pub mod Cpio
pub mod Elf
pub mod Files
pub mod Journal
pub mod Mount
pub mod Path
