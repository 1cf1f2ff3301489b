-- ===== src/Tests.antt =====
-- Runs of the models on concrete inputs, and the theorems applied to them.
mod Bench
mod Stores
mod Registry
mod Runs
mod Slots
mod Signed
mod Listed
mod Sampled
mod Overview
mod Unloaded
