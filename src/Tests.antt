-- ===== src/Tests.antt =====
-- Concrete runs of the modelled code, by component.
mod Logs
mod Versions
mod Threads
mod Pointers
mod Checkpoints
mod Reclamation
mod Restarts
mod Validation
mod Zombies
mod Crash
mod Rounds
mod Transactions
