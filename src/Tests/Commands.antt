-- ===== src/Tests/Commands.antt =====
-- The moderation commands at concrete inputs: a bot, a moderator and a member, in a small guild.
use reactaio.Prelude.{ℕ, ◌≡◌, ◌≤◌, ◌↔◌, refl, true, false, List, [], ◌∷◌, some, arith, All}
use reactaio.UniqueVector.{insert}
use reactaio.UniqueVector.Access.{front}
use reactaio.Algorithm.{set_intersection}
use reactaio.Moderation.World.{Session, role_key}
use reactaio.Moderation.Roles.{get_roles_sorted, top_role, get_protected_roles}
use reactaio.Moderation.Roles.Sorted.{has_role, top_role-greatest}
use reactaio.Moderation.Roles.Copies.{Fresh, protected_roles_ignored}
use reactaio.Moderation.Checks.{Verdict, check_members}
use reactaio.Moderation.Checks.Allowed.{IsAllowed, check_members_lem}
use reactaio.Moderation.Policy.Granted.{IsGranted, check_permissions_lem}
use reactaio.Moderation.Policy
use reactaio.Moderation.Kick.{policy}
use reactaio.Moderation.Open.{judge_open}
use reactaio.Moderation.Open.Granted.{IsOpen, judge_open_lem}
use reactaio.Moderation.Warn
use reactaio.Tests.Guild.{
  staff_role, moderator, member, guild, command, session, verdict, Quiet-20, Quiet-1020,
}

fresh : Fresh guild
fresh i j = ground arith

top_20 : top_role guild member ≡ some 20
unfolding top_role get_roles_sorted insert front
top_20 = refl

has_20 : has_role guild 20 member.roles ≡ true
unfolding has_role
has_20 = refl

top_role-greatest_example : (has_role guild 20 member.roles ≡ true) × (20 ≤ 20)
top_role-greatest_example = top_role-greatest guild member 20 top_20 (Quiet-20, tt) has_20

protected_roles_ignored_example :
    (protected : List ℕ) × (member_roles : List ℕ) × (get_protected_roles guild ≡ some protected)
    × (get_roles_sorted guild (20 ∷ []) true ≡ some member_roles)
    × (set_intersection role_key guild.past_roles protected member_roles [] ≡ some [])
protected_roles_ignored_example =
    protected_roles_ignored guild (20 ∷ []) (20 ∷ []) refl fresh ((ground arith), tt)
      (Quiet-1020, tt) (Quiet-20, tt)

check_members_lem_example :
    ((u : Verdict) × (check_members guild policy.texts moderator false [] staff_role staff_role
          (member ∷ [])
          verdict
        ≡ some u)
      × (u.cancel_operation ≡ false))
    ↔ All (IsAllowed guild policy.texts moderator false [] staff_role staff_role) (member ∷ [])
check_members_lem_example =
    check_members_lem guild policy.texts moderator false [] staff_role staff_role (member ∷ [])
      verdict refl refl

check_permissions_lem_example :
    ((s' : Session) × (Policy.check_permissions guild command policy session ≡ some s')
      × (s'.cancel_operation ≡ false))
    ↔ ((guild.refuses_nested ≡ false) × IsGranted guild command policy (member ∷ []))
check_permissions_lem_example = check_permissions_lem guild command policy session refl

judge_open_lem_example :
    ((u : Verdict) × (judge_open guild command Warn.checks [] (member ∷ []) verdict ≡ some u)
      × (u.cancel_operation ≡ false))
    ↔ IsOpen guild command Warn.checks [] member []
judge_open_lem_example = judge_open_lem guild command Warn.checks [] member [] verdict refl refl
