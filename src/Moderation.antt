-- ===== src/Moderation.antt =====
-- The moderation commands: what src/cogs/moderation/wrappers shares.
pub mod World
pub mod Statements
pub mod Simple
pub mod UserWrapper
pub mod Unban
pub mod GuildBans
pub mod AuditLog
pub mod Roles
pub mod Rows
pub mod Checks
pub mod Session
pub mod Policy
pub mod Hybrid
pub mod Bans
pub mod Notices
pub mod Locks
pub mod Unlock
pub mod Lockdown
pub mod RemoveLockdown
pub mod Kick
pub mod Ban
pub mod Mute
pub mod Open
pub mod Warn
pub mod Softban
pub mod Unmute
pub mod Hardban
