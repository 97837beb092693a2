-- ===== src/Tests.antt =====
-- Runs of the definitions, and the theorems at concrete inputs.
pub mod Containers
pub mod Texts
pub mod Paginators
pub mod Commands
pub mod Guild
pub mod Kicks
pub mod Mutes
pub mod Bans
pub mod Locks
pub mod Simples
pub mod Unbans
pub mod BanLists
