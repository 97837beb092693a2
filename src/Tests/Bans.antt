-- ===== src/Tests/Bans.antt =====
-- The bans at concrete inputs.
use reactaio.Prelude.{
  codes, ℕ, ◌≡◌, ◌⊎◌, refl, Bool, true, false, ◌==◌, List, [], ◌∷◌, Option, some, map, length,
  arith, ◌⊎◌, none, ◌++◌,
}
use reactaio.Prelude.Result.{ok}
use reactaio.Helpers.{join_with_limit, get_tokens}
use reactaio.Duration.{parse_human_time}
use reactaio.Strings.{remove_non_alphanumeric, keep}
use reactaio.UniqueVector.Insert.{Quiet}
use reactaio.UniqueVector.{contains, insert}
use reactaio.UniqueVector.Access.{front}
use reactaio.Algorithm.{set_intersection, transform, set_difference}
use reactaio.Moderation.World.{Command, Session, user_key}
use reactaio.Moderation.Roles.{top_role, get_protected_roles, get_permitted_roles}
use reactaio.Moderation.Checks.{check_members}
use reactaio.Moderation.Policy
use reactaio.Moderation.Policy.Granted.{IsGranted, check_permissions_lem}
use reactaio.Moderation.Session
use reactaio.Moderation.Session.{has_error, log_command_invoke, max_embed_chars}
use reactaio.Moderation.Session.Acts.{acts, banned, recorded}
use reactaio.Moderation.Hybrid.{Hybrid, collect, construct, are_all_errors, log_modcase}
use reactaio.Moderation.Hybrid.Cases.{failed_member-Recorded}
use reactaio.Moderation.Bans.{process_response, wrapper}
use reactaio.Moderation.Bans.Faults.{process_response_one}
use reactaio.Moderation.Ban
use reactaio.Moderation.Ban.Safety.{wrapper_function-Ended}
use reactaio.Moderation.Ban.Granted.{wrapper_function-banned}
use reactaio.Moderation.Ban.Permanent.{temporary_target, wrapper_function_permanent}
use reactaio.Moderation.Hardban
use reactaio.Moderation.Hardban.Safety.{hardban_only_by_owner}
use reactaio.Moderation.Softban
use reactaio.Tests.Guild.{
  guild, command, session, hybrid, collected, targets, member, member_user, moderator, Quiet-user,
}

collects : collect guild targets hybrid ≡ some (false, collected)
unfolding collect insert
collects = refl

built : construct command targets ≡ ok hybrid
unfolding construct parse_human_time get_tokens Session.construct remove_non_alphanumeric keep
built = refl

checked : Policy.check_permissions guild command Ban.policy session ≡ some session
unfolding Policy.check_permissions top_role insert front get_protected_roles transform
    get_permitted_roles Ban.policy check_members set_intersection contains
checked = refl

granted : IsGranted guild command Ban.policy (member ∷ [])
granted =
    ((check_permissions_lem guild command Ban.policy session refl).0 (session, checked, refl)).1

ban_runs : (h : Hybrid) × (Ban.wrapper_function guild command hybrid ≡ some h)
unfolding Ban.wrapper_function wrapper collect insert Policy.check_permissions top_role front
    get_protected_roles transform get_permitted_roles Ban.policy check_members set_intersection
    contains has_error are_all_errors set_difference log_command_invoke Session.reply_with
    process_response
ban_runs = (_, refl)

wrapper_function-Ended_example :
    (invalid : Bool) × (h1 : Hybrid) × (collect guild targets hybrid ≡ some (invalid, h1))
    × (((banned ban_runs.0.base.requests ≡ [])
          × ((invalid ≡ true) ⊎ (ban_runs.0.base.cancel_operation ≡ true)))
        ⊎ ((invalid ≡ false)
            × IsGranted guild command Ban.policy h1.base.members
            × (banned ban_runs.0.base.requests ≡ map (λ u. u.id) h1.users)))
wrapper_function-Ended_example =
    wrapper_function-Ended guild command hybrid ban_runs.0 (unfold banned acts in refl) ban_runs.1

wrapper_function-banned_example :
    (((guild.refuses_nested ≡ true)
        ⊎ (Ban.ban_remove_seconds guild command ≡ none)
        ⊎ (guild.ban_id ≡ none))
      × (Ban.wrapper_function guild command hybrid ≡ none))
    ⊎ ((guild.refuses_nested ≡ false)
        × ((h' : Hybrid) × (Ban.wrapper_function guild command hybrid ≡ some h')
            × (banned h'.base.requests ≡ map (λ u. u.id) (member_user ∷ []))))
wrapper_function-banned_example =
    wrapper_function-banned guild command targets hybrid collected member_user built collects
      granted (Quiet-user, tt) (unfold contains in refl)

wrapper_function_permanent_example : acts temporary_target ban_runs.0.base.requests ≡ []
wrapper_function_permanent_example =
    wrapper_function_permanent guild command targets hybrid ban_runs.0 built ban_runs.1

response : (h : Hybrid) × (process_response guild command Ban.kind collected ≡ some h)
unfolding process_response collect insert Policy.check_permissions top_role front
    get_protected_roles transform get_permitted_roles Ban.policy check_members set_intersection
    contains has_error are_all_errors set_difference log_command_invoke Ban.kind Session.reply_with
response = (_, refl)

process_response_one_example :
    ((has_error collected.base ≡ false) × (are_all_errors collected ≡ false))
    ⊎ ((has_error collected.base ≡ true)
        × (are_all_errors collected ≡ true)
        × ((length (join_with_limit collected.base.errors max_embed_chars) == 1) ≡ true))
process_response_one_example =
    process_response_one guild command Ban.kind collected response.0 refl response.1

-- The ban of the member has failed.
abbrev failed_ban : Hybrid
failed_ban = record collected { users_with_errors = member_user ∷ [] }

Quiet-copy : Quiet user_key guild.past_users (guild.copy_user member_user)
Quiet-copy users = (record member_user { address = 998 }, refl, ground arith)

failed_member-Recorded_example :
    (left : Hybrid) × (earlier later : List ℕ) × (log_modcase guild (codes "Ban") failed_ban
      ≡ some left)
    × (recorded left.base.requests ≡ recorded failed_ban.base.requests ++ (earlier ++ 103 ∷ later))
failed_member-Recorded_example =
    failed_member-Recorded guild (codes "Ban") failed_ban (some 8) [] member [] refl refl refl
      (Quiet-copy, tt) (unfold contains in refl) ((λ same. refl), tt)

abbrev owner_command : Command
owner_command = record command { author = record moderator { is_guild_owner = true } }

hardban_runs : (h : Hybrid) × (Hardban.wrapper_function guild owner_command hybrid ≡ some h)
unfolding Hardban.wrapper_function wrapper collect insert top_role front get_protected_roles
    transform get_permitted_roles check_members set_intersection contains has_error are_all_errors
    set_difference log_command_invoke Session.reply_with process_response
hardban_runs = (_, refl)

hardban_only_by_owner_example :
    (invalid : Bool) × (h1 : Hybrid) × (collect guild targets hybrid ≡ some (invalid, h1))
    × (((banned hardban_runs.0.base.requests ≡ [])
          × ((invalid ≡ true) ⊎ (hardban_runs.0.base.cancel_operation ≡ true)))
        ⊎ ((invalid ≡ false)
            × (owner_command.author.is_guild_owner ≡ true)
            × (banned hardban_runs.0.base.requests ≡ map (λ u. u.id) h1.users)))
hardban_only_by_owner_example =
    hardban_only_by_owner guild owner_command hybrid hardban_runs.0 (unfold banned acts in refl)
      hardban_runs.1

abbrev automatic : Command
automatic = record command { interaction = false }

-- A reader of arrays that finds nothing.
abbrev no_array : Option (List ℕ) → List ℕ
no_array field = []

softban_runs :
    (s : Session) × (Softban.check_permissions guild automatic no_array [] session ≡ some s)
unfolding Softban.check_permissions collect insert top_role front get_protected_roles transform
    get_permitted_roles check_members set_intersection contains has_error are_all_errors
    set_difference log_command_invoke reactaio.Moderation.Open.copy_protected_roles
    reactaio.Moderation.Open.judge_open Softban.checks
softban_runs = (_, refl)
