-- ===== src/Network.antt =====
-- The parts of the network layer: network/request_queue.cpp and network/swarm.cpp.
pub mod Queue
pub mod Swarm
