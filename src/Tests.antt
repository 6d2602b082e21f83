-- ===== src/Tests.antt =====
-- The theorems at concrete inputs, each module for the part that it is named after.
mod Blank
mod Settings
mod Storage
mod LocalStore
mod Digest
mod OAuth
mod Refresh
mod Graph
mod Material
mod ReadModel
mod Run
mod Synthesis
mod Delivery
