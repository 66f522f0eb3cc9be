-- ===== src/Tests.antt =====
-- Concrete inputs: tests of the definitions, and the theorems applied where their hypotheses hold.
mod Config
mod Merging
mod Messages
mod Multipart
mod Store
mod Merges
mod Communities
mod Attachments
mod Queue
mod Swarm
mod Text
