-- ===== src/Gpool.antt =====
-- gpool: a pool that runs tasks on a bounded number of recycled goroutines (gpool/pool.go and
-- gpool/worker.go), over one of two stores for its idle workers.
pub mod Worker
pub mod WorkerStack
pub mod LoopQueue
pub mod WorkerArray
pub mod Pool
