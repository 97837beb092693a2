-- ===== src/Tests/Mutes.antt =====
-- The mute, warn and unmute commands at concrete inputs.
use reactaio.Prelude.{
  ◌+◌, ◌≡◌, ◌⊎◌, refl, true, false, [], ◌∷◌, ◌++◌, some, if◌then◌else◌, length, ℕ, false, List,
}
use reactaio.UniqueVector.{contains, insert}
use reactaio.UniqueVector.Access.{front}
use reactaio.Helpers.{join_with_limit, get_tokens}
use reactaio.Strings.{remove_non_alphanumeric, keep}
use reactaio.Duration.{parse_human_time}
use reactaio.Algorithm.{set_intersection, transform, set_difference}
use reactaio.Moderation.World.{Session, guild_member_timeout_remove}
use reactaio.Moderation.Roles.{
  top_role, get_protected_roles, get_permitted_roles, get_protected_roles,
}
use reactaio.Moderation.Checks.{check_members}
use reactaio.Moderation.Open.{judge_open}
use reactaio.Moderation.Policy
use reactaio.Moderation.Policy.Granted.{IsGranted}
use reactaio.Moderation.Session.{
  has_error, are_all_errors, log_command_invoke, max_embed_chars, reply_with,
}
use reactaio.Moderation.Session.Acts.{acts}
use reactaio.Moderation.Notices
use reactaio.Moderation.Notices.Safety.{process_response_chunks}
use reactaio.Moderation.Mute
use reactaio.Moderation.Mute.Safety.{silenced, ids, wrapper_function-silenced}
use reactaio.Moderation.Warn
use reactaio.Moderation.Warn.Safety.{told, OnlyReports, warn_tells, IsOpenFor}
use reactaio.Moderation.Unmute
use reactaio.Tests.Guild.{member, guild, command, session}

-- The answers of a command without errors.
answers : (s' : Session) × (Notices.process_response guild command Warn.kind session ≡ some s')
unfolding Notices.process_response has_error are_all_errors set_difference log_command_invoke
    contains insert Warn.kind reply_with
answers = (_, refl)

process_response_chunks_example :
    (if has_error session then length (join_with_limit session.errors max_embed_chars) else 0)
      + (if are_all_errors session then 0 else 1)
    ≡ 1
process_response_chunks_example =
    process_response_chunks guild command Warn.kind session answers.0 refl answers.1

mute_runs : (s' : Session) × (Mute.wrapper_function guild command session ≡ some s')
unfolding Mute.wrapper_function Policy.check_permissions top_role insert front get_protected_roles
    transform get_permitted_roles Mute.policy check_members set_intersection contains
    Notices.process_response has_error are_all_errors set_difference log_command_invoke
    parse_human_time get_tokens remove_non_alphanumeric keep reply_with
mute_runs = (_, refl)

wrapper_function-silenced_example :
    ((mute_runs.0.cancel_operation ≡ true) × (silenced mute_runs.0.requests ≡ []))
    ⊎ (IsGranted guild command Mute.policy (member ∷ [])
        × ((silenced mute_runs.0.requests ≡ [])
            ⊎ (silenced mute_runs.0.requests ≡ ids (member ∷ []))))
wrapper_function-silenced_example =
    wrapper_function-silenced guild command session mute_runs.0 refl (unfold silenced acts in refl)
      mute_runs.1

muted : silenced mute_runs.0.requests ≡ 103 ∷ []
unfolding silenced acts mute_runs
muted = refl

warn_runs : (s' : Session) × (Warn.wrapper_function guild command session ≡ some s')
unfolding Warn.wrapper_function judge_open top_role insert front get_protected_roles transform
    get_permitted_roles check_members set_intersection contains Notices.process_response has_error
    are_all_errors set_difference log_command_invoke Warn.checks reply_with
warn_runs = (_, refl)

warn_tells_example :
    ((warn_runs.0.cancel_operation ≡ true) × OnlyReports [] warn_runs.0.requests)
    ⊎ ((warn_runs.0.cancel_operation ≡ false)
        × ((protected : List ℕ) × (get_protected_roles guild ≡ some protected)
            × IsOpenFor guild command protected (member ∷ []))
        × OnlyReports
            ([] ++ (if true then told command (member ∷ []) else []))
            warn_runs.0.requests)
warn_tells_example = warn_tells guild command session warn_runs.0 warn_runs.1

-- Without a mute role only the time-out is removed.
unmuted :
    Unmute.process_unmutes guild command session
    ≡ some (false, record session { requests = guild_member_timeout_remove 103 ∷ [] })
unfolding Unmute.process_unmutes
unmuted = refl
