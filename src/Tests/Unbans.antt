-- ===== src/Tests/Unbans.antt =====
-- The unban command at concrete inputs.
use reactaio.Moderation.Checks.{cross}
use reactaio.Helpers.{join_with_limit}
use reactaio.Moderation.Statements.{exec_prepared, has_column}
use reactaio.Moderation.Rows.{query, as_number}
use reactaio.Moderation.Session.{reject}
use reactaio.Moderation.Roles.{top_role}
use reactaio.Algorithm.{set_intersection}
use reactaio.Prelude.{◌≡◌, refl, true, false, [], ◌∷◌, some, arith}
use reactaio.UniqueVector.{contains, insert, erase}
use reactaio.UniqueVector.Access.{front}
use reactaio.Moderation.World.{User, user_key}
use reactaio.Moderation.Unban.{check_permissions, decide, wrapper_function}
use reactaio.Moderation.UserWrapper.{Users}
use reactaio.Moderation.Unban.Safety.{Passes, unbanned, returns_refused}
use reactaio.Moderation.Unban.Checks.{hard_bans_ignored, check_permissions-Passes}
use reactaio.Tests.Guild.{command, session, member_user}
use reactaio.Tests.Simples.{weak_guild, rich_guild}

abbrev banned_user : Users
banned_user = record {
  base = record session { members = [] };
  users = member_user ∷ [];
  users_with_errors = [];
}

refusal : (x' : Users) × (wrapper_function weak_guild command banned_user ≡ some x')
unfolding wrapper_function query exec_prepared top_role insert front set_intersection contains erase
    reject join_with_limit cross
refusal = (_, refl)

returns_refused_example :
    (refusal.0.base.cancel_operation ≡ true) × (unbanned refusal.0.base.requests ≡ unbanned [])
returns_refused_example =
    returns_refused weak_guild command banned_user refusal.0 (λ e. ground (arith, e)) refl refusal.1

-- The user is hard banned, and the author is not the owner.
passed : (x' : Users) × (check_permissions rich_guild command banned_user ≡ some x')
unfolding check_permissions query exec_prepared as_number has_column insert top_role front
    set_intersection contains erase
passed = (_, refl)

fresh_copy : (u : User) → contains user_key banned_user.users (rich_guild.copy_user u) ≡ false
unfolding contains
fresh_copy u = ground arith

hard_bans_ignored_example : decide rich_guild command [] banned_user ≡ some passed.0
hard_bans_ignored_example =
    hard_bans_ignored rich_guild command banned_user passed.0 fresh_copy passed.1

check_permissions-Passes_example : Passes rich_guild command
check_permissions-Passes_example =
    check_permissions-Passes rich_guild command banned_user passed.0 passed.1
      (unfold passed in refl)
