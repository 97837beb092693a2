-- ===== src/Moderation/Statements.antt =====
-- src/prepared_statements.h: the SQL statements that have a name. The texts are left to the database;
-- of each the number of its parameters is kept, and the columns that its rows have.
use reactaio.Prelude.{
  ℕ, ◌==◌, Bool, false, ◌||◌, List, [], ◌∷◌, Option, none, some, if◌then◌else◌, Text, codes,
}
use reactaio.Strings.{text_eq}

unfoldable pub statements : List (Text × ℕ × List Text)
statements =
    (codes "kick_modlog", 1, codes "member_kick" ∷ codes "modlog" ∷ codes "public_modlog" ∷ [])
    ∷ (codes "casecount", 1, codes "case_id" ∷ [])
    ∷ (codes "ban_modlog", 1, codes "member_ban_add" ∷ codes "modlog" ∷ codes "public_modlog" ∷ [])
    ∷ (
      codes "channel_modlog",
      1,
      codes "channel_overwrite_create"
          ∷ codes "channel_overwrite_update"
          ∷ codes "channel_overwrite_delete"
          ∷ codes "modlog"
          ∷ codes "public_modlog"
          ∷ [],
    )
    ∷ (codes "modlog", 1, codes "modlog" ∷ codes "public_modlog" ∷ [])
    ∷ (codes "update_modlog", 1, [])
    ∷ (codes "delete_modlog", 1, [])
    ∷ (codes "get_error_webhook", 1, codes "bot_error_logs" ∷ [])
    ∷ (codes "modcase_insert", 6, [])
    ∷ (codes "modcase_insert_duration", 7, [])
    ∷ (
      codes "modcase_view",
      2,
      codes "action"
          ∷ codes "mod_id"
          ∷ codes "punished_id"
          ∷ codes "reason"
          ∷ codes "duration"
          ∷ [],
    )
    ∷ (
      codes "modcase_view_user",
      2,
      codes "action" ∷ codes "mod_id" ∷ codes "reason" ∷ codes "duration" ∷ [],
    )
    ∷ (
      codes "modcase_view_guild",
      1,
      codes "action"
          ∷ codes "mod_id"
          ∷ codes "reason"
          ∷ codes "duration"
          ∷ codes "punished_id"
          ∷ [],
    )
    ∷ (
      codes "modcase_view_mod",
      2,
      codes "action" ∷ codes "punished_id" ∷ codes "reason" ∷ codes "duration" ∷ [],
    )
    ∷ (codes "modcase_update_reason", 2, codes "case_id" ∷ [])
    ∷ (codes "command_insert", 4, [])
    ∷ (codes "get_ban_remove_days", 1, codes "ban_remove_days" ∷ [])
    ∷ (codes "update_ban_remove_days", 2, [])
    ∷ (codes "delete_ban_remove_days", 1, [])
    ∷ (codes "get_ban_id", 1, codes "ban_id" ∷ [])
    ∷ (
      codes "get_ban",
      2,
      codes "ban_id"
          ∷ codes "user_id"
          ∷ codes "guild_id"
          ∷ codes "mod_id"
          ∷ codes "start_date"
          ∷ codes "end_date"
          ∷ codes "reason"
          ∷ [],
    )
    ∷ (codes "tempban", 7, [])
    ∷ (codes "remove_tempban", 2, [])
    ∷ (codes "update_tempban", 3, codes "end_date" ∷ [])
    ∷ (codes "get_unban_log", 1, codes "member_ban_remove" ∷ [])
    ∷ (codes "get_mute_id", 1, codes "mute_id" ∷ [])
    ∷ (
      codes "get_mute",
      2,
      codes "mute_id"
          ∷ codes "user_id"
          ∷ codes "guild_id"
          ∷ codes "mod_id"
          ∷ codes "start_date"
          ∷ codes "end_date"
          ∷ codes "reason"
          ∷ [],
    )
    ∷ (codes "get_mute_role", 1, codes "mute_role" ∷ [])
    ∷ (codes "tempmute", 7, [])
    ∷ (
      codes "view_tempmute",
      2,
      codes "mute_id"
          ∷ codes "user_id"
          ∷ codes "mod_id"
          ∷ codes "start_date"
          ∷ codes "end_date"
          ∷ codes "reason"
          ∷ [],
    )
    ∷ (codes "update_tempmute", 3, codes "end_date" ∷ [])
    ∷ (codes "remove_tempmute", 2, [])
    ∷ (codes "protected_roles", 1, codes "protected_roles" ∷ [])
    ∷ (codes "check_timeout", 1, codes "use_timeout" ∷ [])
    ∷ (codes "get_timeout_id", 1, codes "timeout_id" ∷ [])
    ∷ (codes "permanent_timeout", 5, [])
    ∷ (codes "permanent_timeout_remove", 2, [])
    ∷ (
      codes "permanent_timeout_get",
      2,
      codes "timeout_id" ∷ codes "user_id" ∷ codes "author_id" ∷ codes "reason" ∷ [],
    )
    ∷ (codes "hardban_get", 1, codes "user_id" ∷ [])
    ∷ (codes "hardban_remove", 2, [])
    ∷ (codes "lockdowns_get", 1, codes "lockdown_channels" ∷ [])
    ∷ (codes "lockowns_update", 2, [])
    ∷ (codes "clear_lockdown_channels", 1, [])
    ∷ (codes "view_warnings", 2, codes "warn_id" ∷ codes "reason" ∷ [])
    ∷ (
      codes "view_guild_warnings",
      1,
      codes "warn_id" ∷ codes "user_id" ∷ codes "mod_id" ∷ codes "reason" ∷ [],
    )
    ∷ (
      codes "view_guild_muted_members",
      1,
      codes "case_id"
          ∷ codes "action"
          ∷ codes "mod_id"
          ∷ codes "punished_id"
          ∷ codes "action"
          ∷ codes "duration"
          ∷ codes "reason"
          ∷ [],
    )
    ∷ (codes "warning_lookup", 2, codes "user_id" ∷ [])
    ∷ (codes "remove_warning", 2, codes "warn_id" ∷ [])
    ∷ (codes "update_warning", 3, [])
    ∷ (codes "clear_warnings", 2, codes "user_id" ∷ [])
    ∷ (codes "clear_guild_warnings", 1, codes "guild_id" ∷ [])
    ∷ (codes "get_mod_perm_roles", 2, codes "role_id" ∷ [])
    ∷ []

unfoldable pub find_statement : List (Text × ℕ × List Text) → Text → Option (ℕ × List Text)
find_statement [] name = none
find_statement ((n, parameters, columns) ∷ table) name =
    if text_eq n name then some (parameters, columns) else find_statement table name

-- `exec_prepared(name, …)` with so many parameters: the columns of its rows. The library throws where
-- no statement has the name, and where the statement has another number of parameters.
unfoldable pub exec_prepared : Text → ℕ → Option (List Text)
unfolding statements find_statement
exec_prepared name count = elim (find_statement statements name) [
  | none ↦ none
  | some (parameters, columns) ↦ if parameters == count then some columns else none
]

unfoldable pub has_column : List Text → Text → Bool
has_column [] column = false
has_column (c ∷ columns) column = text_eq c column || has_column columns column
