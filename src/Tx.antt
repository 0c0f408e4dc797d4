-- ===== src/Tx.antt =====
-- main/owl/tx.c: the frames a node sends. A function that fills a buffer and returns the count
-- is the list of the bytes that it stores, in their order in the buffer.
pub mod Tlvs
pub mod Frames
mod Tests
