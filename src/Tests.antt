-- ===== src/Tests.antt =====
-- The theorems at concrete inputs, with a small model of the parameters.
mod Models
mod Texts
mod Registry
mod Miners
mod Channel
mod Dashboard
mod Blocks
mod Node
mod Startup
mod Overview
mod Searching
mod Listed
mod Running
