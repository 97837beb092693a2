-- ===== src/Tests/Locks.antt =====
-- The lock and unlock commands at concrete inputs.
use reactaio.Prelude.{◌≡◌, ◌⊎◌, refl, true, [], some, map, null, if◌then◌else◌, codes}
use reactaio.UniqueVector.{contains, insert}
use reactaio.UniqueVector.Access.{front}
use reactaio.Algorithm.{transform, set_difference}
use reactaio.Moderation.World.{channel_key, failed}
use reactaio.Moderation.Roles.{top_role, get_permitted_roles}
use reactaio.Moderation.Session.{has_error, log_command_invoke, reply_with}
use reactaio.Moderation.Session.Acts.{acts}
use reactaio.Moderation.Locks.{
  Locks, lock, unlock, lambda_callback, process_response, wrapper_function,
}
use reactaio.Moderation.Locks.Answer.{changed}
use reactaio.Moderation.Locks.Safety.{IsPermitted, wrapper_function-changed}
use reactaio.Moderation.Unlock
use reactaio.Tests.Guild.{channel, guild, command, session}

abbrev pub begun : Locks
begun = record { base = record session { members = [] }; channels = []; channels_with_errors = [] }

lock_runs : (l' : Locks) × (wrapper_function guild command lock begun ≡ some l')
unfolding wrapper_function top_role insert front transform get_permitted_roles contains has_error
    set_difference log_command_invoke process_response reply_with lock
lock_runs = (_, refl)

wrapper_function-changed_example :
    ((lock_runs.0.base.cancel_operation ≡ true) × (changed lock_runs.0.base.requests ≡ []))
    ⊎ (IsPermitted guild command lock
        × ((if null begun.channels
              then insert channel_key guild.past_channels channel []
              else some begun.channels)
            ≡ some lock_runs.0.channels)
        × (changed lock_runs.0.base.requests ≡ map (λ a. a.id) lock_runs.0.channels))
wrapper_function-changed_example =
    wrapper_function-changed guild command lock begun lock_runs.0 refl (unfold changed acts in refl)
      lock_runs.1

-- The callback of unlock does not keep a channel that failed.
failure :
    (l' : Locks) × (Unlock.lambda_callback guild (failed 50013 (codes "no")) channel begun
      ≡ some l')
    × (l'.channels_with_errors ≡ [])
unfolding Unlock.lambda_callback lambda_callback unlock
failure = (_, refl, refl)
