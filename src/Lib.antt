-- ===== src/Lib.antt =====
-- Reactaio, a Discord moderation bot: its core library (src/cogs/core) and the checks and reports of
-- its moderation commands (src/cogs/moderation/wrappers).
--
-- The parts and their files:
--   Prelude       lists, options, texts as lists of bytes, Booleans on the native numbers, `Result`
--                 for the C++ exceptions that the code can meet.
--   UniqueVector  core/containers/unique_vector.h. Elements are compared by a key. Insert and Access
--                 hold the facts on `insert` and on the other operations; Refinement runs sequences
--                 of operations against sets.
--   Algorithm     core/algorithm.h, the set operations over unique vectors.
--   FifoMap       core/containers/fifo_map.h; Refinement reads a map as a function.
--   FixedMap      core/containers/fixed_map.h at run time; the static map of `get_map` is passed on
--                 from call to call.
--   Strings       core/strings.h, for ASCII bytes.
--   Decimal       `std::to_string` and `std::stoull` as the C++ standard describes them.
--   Helpers       core/helpers.h and helpers.cpp: `ordinal`, `join`, `join_with_limit`, `get_tokens`,
--                 `find_all_of` and `find_index_all`.
--   Duration      core/discord/duration.h, and `parse_human_time` of helpers.cpp.
--   Paginator     core/discord/message_paginator.h and message_paginator.cpp. A paginator keeps the
--                 requests that it makes; a click is a call of the handler that `start` registers.
--   Moderation    World is what a command reads: the cache of the D++ library, rows of the
--                 database, and addresses. Session is the state of a wrapper object with the
--                 requests that it makes, and the reports of command_wrapper.cpp and
--                 member_wrapper.cpp. Roles is `get_roles_sorted` and the lists of protected and
--                 permitted roles. Checks is the loop over the members that the commands share.
--                 Statements is the table of prepared_statements.h.
--                 Policy is `check_permissions` of the kick, ban and mute commands; Open is that of
--                 warn, soft ban and unmute, which ask nothing of the author's flags; Hardban has
--                 its own. Kick is the whole kick command, its callbacks and its answer;
--                 Kick/Lifecycle lets the callbacks come in any order. Hybrid is hybrid_wrapper.h
--                 and hybrid_wrapper.cpp, commands on members and other users; Bans is what the
--                 wrapper functions and the answers of ban, hard ban and soft ban share, and Ban,
--                 Hardban and Softban are those commands. Notices is the answer that mute, warn and
--                 unmute share, over the texts of each, and Mute, Warn and Unmute are those
--                 commands. Locks is the lock and unlock commands over what they differ in, and
--                 Unlock the latter; Lockdown and RemoveLockdown are the same for
--                 wrappers/lockdown. Rows is the rows of a query, with their columns. Simple is
--                 simple_wrapper.h and what its commands share; Simple/Warnings is wrappers/warning
--                 management, Simple/Cases is wrappers/logging, and Simple/Commands takes these
--                 commands together. UserWrapper is user_wrapper.h and user_wrapper.cpp, and Unban is wrappers/unban.
--                 GuildBans is recursive_wrapper.h and wrappers/bans; its pages come from a parameter,
--                 and GuildBans/Pages says what Discord promises of them (`Serves`). AuditLog is
--                 wrappers/audit logs, and AuditLog/Events is moderation/audit_log_actions.h.
--   Tests         runs of the definitions at concrete inputs.
--
-- How the code is written down. `none` is undefined behaviour, a read through a null
-- pointer, or an exception that ends the command.
-- `std::shared_ptr` values are their addresses, and 0 is null. A read behind the last element of a
-- vector, which `unique_vector::insert` makes, gives what the parameter `past_end` says; a theorem
-- that needs it to be harmless says so (`Quiet`). Unsigned numbers keep their wrap-around: the page
-- number of a paginator is taken modulo 2 ^ 16 and sizes modulo 2 ^ 64. The kick and ban
-- commands ask for their kicks and bans and answer before any of them ends; a callback is a later
-- step on the wrapper object.
--
-- Bounds. `digits` writes at most 20 digits, and a number below 2 ^ 64 has no more. The loop of
-- `replace_all` has one round more than the text has bytes, and each round passes a byte or more.
-- The loops of `find_all_of` and `find_index_all` take their fuel as an argument, and end on more than
-- the bytes of the string. The loop of `parse_human_time` has as many rounds as there are tokens, as in
-- the code. The calls for the pages of a ban list take their fuel as an argument, and end on more than
-- the bans of the guild.
--
-- Taken as given. Statements that are prepared and requests to Discord succeed when they are made, and
-- the row of configuration that a mute, an unmute and a lockdown ask for is there. Colours, time
-- stamps, button styles and avatars are left out. `parse_psql_array`, which four commands call and no
-- file declares, is a parameter. `set_symmetric_difference` calls a `set_intersection` with two
-- arguments, which no file declares: it is read as the intersection put into a new container.
--
-- The user of a member is in the cache. Who owns an object behind a shared pointer, and when it is
-- deleted, is not described.
--
-- A query for one row throws when there is no row or more than one. Of the rows that a guild need not
-- have, those of the protected roles (`protected_roles`), of the days of messages to delete
-- (`ban_remove_days`), of the case log (`case_id`), of temporary bans (`ban_id`) and of permanent
-- time-outs (`timeout_id`) are none or one, and `lacks_webhooks` says that there is no row of webhooks.
-- Whether a second transaction is refused on a connection while one is live is a parameter,
-- `refuses_nested`; libpqxx documents that it refuses it. What a command has asked for before it throws
-- is not described: a theorem on requests speaks of commands that return.
--
-- A statement throws when it is not prepared or is given another number of parameters than its text
-- has. Whether a statement may follow the commit of its transaction is a parameter,
-- `executes_after_commit`.
--
-- Not described: `update_duration` of change_duration.cpp, which nothing calls; view_muted_members.cpp,
-- whose vectors several threads fill at once; module_manager.h, which declares operations that no file
-- implements; the registration of the commands with D++; the logger, and the SQL texts.
pub mod Prelude
pub mod Tests
pub mod Strings
pub mod Decimal
pub mod Helpers
pub mod Moderation
pub mod FifoMap
pub mod FixedMap
pub mod Duration
pub mod Paginator
pub mod UniqueVector
pub mod Algorithm
