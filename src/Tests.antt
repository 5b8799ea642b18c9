-- ===== src/Tests.antt =====
-- Concrete runs of the models: each theorem that has hypotheses or arguments, applied to data on
-- which its hypotheses hold.
mod Ds
mod Storage
mod Raft
mod Utilities
mod Engine
mod Strings
