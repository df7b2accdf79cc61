-- ===== src/Tests.antt =====
-- The theorems at concrete inputs.
mod Lookup
mod Odds
mod Merging
mod Pipeline
mod Reading
mod Waiting
mod Service
mod Storage
mod Generator
mod Games
