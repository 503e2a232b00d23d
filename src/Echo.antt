-- ===== src/Echo.antt =====
-- The echo application: the worker thread of the host (user/app_main.c) and the two single-context
-- firmware programs (firmware/rx.c, firmware/tx.c), which share the configuration structure on the
-- card (devcfg.h) and the two packet buffers in the host's memory.
pub mod Meta
pub mod Worker
pub mod Rx
pub mod Tx
pub mod System
pub mod Invariant
pub mod Fifo
