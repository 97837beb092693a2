-- ===== src/Moderation/Simple/Commands.antt =====
-- All commands on warnings and cases that src/cogs/moderation/wrappers makes simple wrappers of, but
-- view_muted_members.
use reactaio.Prelude.{Option, some, none, Text}
use reactaio.Moderation.World.{Member, World, Command, Session}
use reactaio.Moderation.Roles.{◌>>=◌}
use reactaio.Moderation.Simple.{check_bot, lacks_manage_guild, check_member}
use reactaio.Moderation.Simple.Warnings
use reactaio.Moderation.Simple.Cases
use reactaio.Prelude.{codes}

pub data Simple : Type 0 where
  clear_guild_warnings : Simple
  clear_warnings : Member → Simple
  delete_warning : Text → Simple
  view_warnings : Member → Simple
  view_guild_warnings : Simple
  change_reason : Text → Simple
  change_duration : Text → Simple
  view_modcase : Text → Simple
  view_user_modcases : Member → Simple
  view_mod_modcases : Member → Simple
  view_guild_modcases : Simple

module _ (w : World) (c : Command) where
  -- `wrapper_function`
  unfoldable pub wrapper_function : Simple → Session → Option Session
  wrapper_function clear_guild_warnings = Warnings.clear_guild_warnings w c
  wrapper_function (clear_warnings m) = Warnings.clear_warnings w c m
  wrapper_function (delete_warning id) = Warnings.delete_warning w c id
  wrapper_function (view_warnings m) = Warnings.view_warnings w c m
  wrapper_function view_guild_warnings = Warnings.view_guild_warnings w c
  wrapper_function (change_reason id) = Cases.change_reason w c id
  wrapper_function (change_duration id) = Cases.change_duration w c id
  wrapper_function (view_modcase id) = Cases.view_modcase w c id
  wrapper_function (view_user_modcases m) = Cases.view_user_modcases w c m
  wrapper_function (view_mod_modcases m) = Cases.view_mod_modcases w c m
  wrapper_function view_guild_modcases = Cases.view_guild_modcases w c

  -- A check that finds no member.
  unfoldable pub alone : Option Session → Option (Option Member × Session)
  alone r = r >>= λ t. some (none, t)

  -- `check_permissions`, with the member that the checks of delete_warning find.
  unfoldable pub check : Simple → Session → Option (Option Member × Session)
  unfolding alone
  check clear_guild_warnings s = alone (check_bot w (λ r. r.has_manage_guild) lacks_manage_guild s)
  check (clear_warnings m) s = alone (check_member w (codes "clear warnings") m s)
  check (delete_warning id) s = Warnings.delete_warning_check w c id s
  check (view_warnings m) s = alone (check_member w (codes "view warnings") m s)
  check view_guild_warnings s = alone (check_bot w (λ r. r.has_manage_guild) lacks_manage_guild s)
  check (change_reason id) s = alone (Cases.check_permissions w c s)
  check (change_duration id) s = alone (Cases.check_permissions w c s)
  check (view_modcase id) s = alone (Cases.check_permissions w c s)
  check (view_user_modcases m) s = alone (Cases.check_permissions w c s)
  check (view_mod_modcases m) s = alone (Cases.check_permissions w c s)
  check view_guild_modcases s = alone (Cases.check_permissions w c s)

  -- `process_response` behind its block for errors.
  unfoldable pub answer : Simple → Option Member → Session → Option Session
  answer clear_guild_warnings found = Warnings.clear_guild_warnings_answer w c
  answer (clear_warnings m) found = Warnings.clear_warnings_answer w c m
  answer (delete_warning id) found = Warnings.delete_warning_answer w c id found
  answer (view_warnings m) found = Warnings.view_warnings_answer w c m
  answer view_guild_warnings found = Warnings.view_guild_warnings_answer w c
  answer (change_reason id) found = Cases.change_reason_answer w c id
  answer (change_duration id) found = Cases.change_duration_answer w c id
  answer (view_modcase id) found = Cases.view_modcase_answer w c id
  answer (view_user_modcases m) found = Cases.view_user_modcases_answer w c m
  answer (view_mod_modcases m) found = Cases.view_mod_modcases_answer w c m
  answer view_guild_modcases found = Cases.view_guild_modcases_answer w c
