-- ===== src/Tests.antt =====
-- Concrete inputs at which the results apply.
pub mod Database
pub mod Queue
pub mod Jgf
pub mod Plugin
pub mod Workers
pub mod Controller
pub mod Webhook
pub mod Cluster
pub mod System
pub mod Group
pub mod Progress
pub mod Repeat
pub mod Sets
pub mod Manager
pub mod Server
pub mod Conserved
pub mod Lossless
