-- ===== src/Tests.antt =====
-- Concrete runs, and each theorem that has hypotheses at an input that meets them.
mod Packets
mod Tasks
mod Queue
mod Logging
mod Workers
mod Echo
mod Server
mod Pinging
mod Threads
mod Helpers
mod Progress
