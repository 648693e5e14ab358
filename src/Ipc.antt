-- ===== src/Ipc.antt =====
-- Inter-process communication (src/kernel/ipc).
pub mod Pipe
