-- ===== src/Tests.antt =====
-- Sample data, and the theorems of the library applied to it.
mod Samples
mod Params
mod Codecs
mod Dags
mod Chains
mod Mining
mod Strategies
mod Nodes
mod Network
mod Rounds
mod Disks
mod Beginnings
