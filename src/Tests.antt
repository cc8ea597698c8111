-- ===== src/Tests.antt =====
-- Inputs on which the theorems are applied, and runs of the code on them.
mod Toy
mod Resolution
mod Cluster
mod Rollout
mod Packing
mod Revising
mod Extending
mod Migrating
