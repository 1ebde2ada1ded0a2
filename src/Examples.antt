-- ===== src/Examples.antt =====
-- Runs of the models on small inputs, and each theorem at an input that meets its hypotheses.
mod Leases
mod Limiters
mod Leaders
mod Ciphers
mod Vaults
mod KeyRotations
mod ImportGraphs
mod FolderTrees
mod Deliveries
mod Generators
