-- ===== src/LogQueue.antt =====
-- log-queue.c and log-queue.h: a bounded queue of log records in a circular array.
pub mod Queue
pub mod Fifo
