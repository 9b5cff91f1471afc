-- ===== src/Mem.antt =====
-- util/mem: the ring of latest entries, the array of values that expire, and the free list.
pub mod Ring
pub mod SyncArray
pub mod ChannelBuf
pub mod Slab
