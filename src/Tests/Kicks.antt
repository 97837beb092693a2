-- ===== src/Tests/Kicks.antt =====
-- The kick command at concrete inputs.
use reactaio.Moderation.World.{Session}
use reactaio.Moderation.Session.Acts.{recorded, acts}
use reactaio.Moderation.Kick.Lifecycle.{Calls, start}
use reactaio.Moderation.Kick.Lifecycle.Invariant.{Inv, Reach-Inv}
use reactaio.Prelude.{◌≡◌, ◌⊎◌, refl, true, [], ◌∷◌, ◌++◌, some, map, ◌⊎◌, none, false, true}
use reactaio.UniqueVector.{contains, insert}
use reactaio.UniqueVector.Access.{front}
use reactaio.Algorithm.{set_intersection, transform, set_difference, set_symmetric_difference}
use reactaio.Moderation.Session.{has_error, are_all_errors, log_command_invoke}
use reactaio.Moderation.World.{Session}
use reactaio.Moderation.Roles.{top_role, get_protected_roles, get_permitted_roles}
use reactaio.Moderation.Checks.{check_members}
use reactaio.Moderation.Policy.Granted.{IsGranted, check_permissions_lem}
use reactaio.Moderation.Policy
use reactaio.Moderation.Session.Acts.{kicked, recorded, acts}
use reactaio.Moderation.Kick.{policy, wrapper_function}
use reactaio.Moderation.Kick.Safety.{wrapper_function_lem}
use reactaio.Moderation.Kick.Granted.{wrapper_function_granted}
use reactaio.Tests.Guild.{member, guild, command, session, Quiet-member}

-- The session that the kick of the member leaves.
kick_runs : (s' : Session) × (wrapper_function guild command session ≡ some s')
unfolding wrapper_function Policy.check_permissions top_role insert front get_protected_roles
    transform get_permitted_roles policy check_members set_intersection contains has_error
    are_all_errors set_difference set_symmetric_difference log_command_invoke
kick_runs = (_, refl)

wrapper_function_lem_example :
    ((kick_runs.0.cancel_operation ≡ true) × (kicked kick_runs.0.requests ≡ []))
    ⊎ (IsGranted guild command policy (member ∷ [])
        × (kicked kick_runs.0.requests ≡ map (λ m. m.user_id) (member ∷ [])))
wrapper_function_lem_example =
    wrapper_function_lem guild command session kick_runs.0 refl (unfold kicked acts in refl)
      kick_runs.1

checked : Policy.check_permissions guild command policy session ≡ some session
unfolding Policy.check_permissions top_role insert front get_protected_roles transform
    get_permitted_roles policy check_members set_intersection contains
checked = refl

granted : IsGranted guild command policy (member ∷ [])
granted = ((check_permissions_lem guild command policy session refl).0 (session, checked, refl)).1

wrapper_function_granted_example :
    (((guild.refuses_nested ≡ true)
        ⊎ ((guild.lacks_webhooks ≡ true) × (are_all_errors session ≡ false)))
      × (wrapper_function guild command session ≡ none))
    ⊎ ((guild.refuses_nested ≡ false)
        × ((s' : Session) × (wrapper_function guild command session ≡ some s')
            × (kicked s'.requests ≡ kicked session.requests ++ map (λ m. m.user_id) (member ∷ []))))
wrapper_function_granted_example =
    wrapper_function_granted guild command session granted refl refl refl (Quiet-member, tt) tt

abbrev begun : Calls
begun = record { session = session; pending = member ∷ [] }

Reach-Inv_example : Inv session begun
Reach-Inv_example = Reach-Inv guild session begun refl (unfold recorded acts in refl) start
