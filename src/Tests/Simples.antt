-- ===== src/Tests/Simples.antt =====
-- The commands on warnings and cases, and the lockdown commands, at concrete inputs.
use reactaio.Moderation.Locks
use reactaio.Helpers.{join_with_limit}
use reactaio.Decimal.{to_string}
use reactaio.Moderation.Simple.Warnings
use reactaio.Moderation.Simple.Cases
use reactaio.Moderation.Statements.{exec_prepared, has_column}
use reactaio.Moderation.Rows.{query_one, is_null}
use reactaio.UniqueVector.Access.{front}
use reactaio.UniqueVector.{insert}
use reactaio.Moderation.Locks.{Locks, finish}
use reactaio.Moderation.Lockdown.{start}
use reactaio.Moderation.Session.{has_error, reply_with, log_command_invoke}
use reactaio.Moderation.Roles.{top_role}
use reactaio.Moderation.Simple.{check_bot, bot_top, refuse}
use reactaio.Moderation.Simple.Faults.{cannot_answer, Misasks}
use reactaio.Moderation.Simple.Removals.{removes_one, Removed, removal}
use reactaio.Moderation.Simple.Refusals.{straight, wrapper_function-straight, refusals_untold}
use reactaio.Moderation.Simple.Commands.{
  wrapper_function, check, alone, clear_warnings, clear_guild_warnings, view_guild_warnings,
  change_reason,
}
use reactaio.Moderation.Lockdown.Safety.{returns-unchanged}
use reactaio.Moderation.Locks.Answer.{changed}
use reactaio.Tests.Locks.{begun}
use reactaio.Prelude.{◌≡◌, refl, [], ◌∷◌, some, none, Option, codes, true, ◌⊎◌, ℕ, List}
use reactaio.Moderation.World.{World, Value, number, Session}
use reactaio.Moderation.Lockdown
use reactaio.Tests.Guild.{guild, command, session, member}

-- A bot that may do nothing.
abbrev pub weak_guild : World
weak_guild = record guild { bot_member = member }

-- Each statement gives one row of numbers.
abbrev pub rich_guild : World
rich_guild = record guild { rows = λ name parameters. (λ column. some (number 1)) ∷ [] }

wrapper_function-straight_example :
    wrapper_function rich_guild command (clear_warnings member) session
    ≡ straight rich_guild command (clear_warnings member) session
wrapper_function-straight_example =
    wrapper_function-straight rich_guild command (clear_warnings member) session
      (unfold has_error in refl)

refused : (t : Session) × (check weak_guild command view_guild_warnings session ≡ some (none, t))
unfolding check alone check_bot bot_top top_role refuse insert front
refused = (_, refl)

refusals_untold_example :
    (wrapper_function weak_guild command view_guild_warnings session ≡ some refused.0)
    × (has_error refused.0 ≡ true)
    × (refused.0.requests ≡ [])
refusals_untold_example =
    refusals_untold weak_guild command view_guild_warnings session refused.0 none
      (unfold has_error in refl) refl refused.1 (unfold refused check in refl)

unchanged_reason :
    (t : Session) × (wrapper_function weak_guild command (change_reason (codes "7")) session
      ≡ some t)
unfolding wrapper_function Cases.change_reason top_role insert front
unchanged_reason = (_, refl)

cannot_answer_example : unchanged_reason.0.cancel_operation ≡ true
cannot_answer_example =
    cannot_answer weak_guild command (change_reason (codes "7")) session unchanged_reason.0
      (unfold Misasks in tt) (unfold has_error in refl) unchanged_reason.1

removed :
    (t : Session) × (wrapper_function rich_guild command clear_guild_warnings session ≡ some t)
unfolding wrapper_function Warnings.clear_guild_warnings top_role insert front has_error query_one
    exec_prepared is_null has_column
removed = (_, refl)

removes_one_example :
    (removed.0.cancel_operation ≡ true)
    ⊎ Removed rich_guild command (codes "clear_guild_warnings") (codes "900" ∷ []) session removed.0
removes_one_example =
    removes_one rich_guild command clear_guild_warnings session removed.0
      (codes "clear_guild_warnings") (codes "900" ∷ []) (unfold has_error in refl)
      (unfold removal to_string in refl) removed.1

-- The one channel of the lockdown is unknown.
abbrev ids_of : Option Value → List ℕ
ids_of value = 7 ∷ []

lockdown_ends :
    (l' : Locks) × (Lockdown.wrapper_function rich_guild command start ids_of begun ≡ some l')
unfolding Lockdown.wrapper_function top_role insert front query_one exec_prepared is_null has_column
    has_error Locks.are_all_errors finish reply_with join_with_limit to_string log_command_invoke
lockdown_ends = (_, refl)

returns-unchanged_example : changed lockdown_ends.0.base.requests ≡ changed begun.base.requests
returns-unchanged_example =
    returns-unchanged rich_guild command start ids_of begun lockdown_ends.0 refl refl
      lockdown_ends.1
