-- ===== src/Tests.antt =====
-- Runs of the operations and of the theorems at concrete inputs.
mod Queue
mod Stack
mod Pool
mod Machine
mod Buffers
mod Services
mod Connections
mod Events
mod Config
mod Cache
mod Calling
mod Promises
mod Routes
mod Entries
mod Rotation
mod Locks
mod Discovery
mod Messages
mod Lives
mod Broker
mod Listening
