-- ===== src/Shard.antt =====
-- internal/shard: how the layers of a model are placed on the devices of several nodes.
pub mod Llama
pub mod Memory
pub mod Placement
