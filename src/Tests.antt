-- ===== src/Tests.antt =====
-- Runs of the definitions at concrete inputs, and the theorems at inputs that meet their hypotheses.
mod Requests
mod Rings
mod Sizes
mod Stacks
mod Tables
mod Pools
mod Lines
mod Locals
mod Texts
mod Kernels
mod Heads
mod Mappings
mod Commands
