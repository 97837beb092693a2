-- ===== src/Moderation/Policy.antt =====
-- `check_permissions` of the kick, ban and mute commands of src/cogs/moderation/wrappers, over what
-- these ask for: the flags of the top roles and the texts.
pub mod Granted
use reactaio.Prelude.{
  ℕ, Bool, true, false, not, ◌&&◌, ◌||◌, List, [], ◌∷◌, ◌++◌, Option, none, some, if◌then◌else◌,
  null, Text,
}
use reactaio.UniqueVector.{contains}
use reactaio.Moderation.World.{Role, Member, World, Command, Session, role_key}
use reactaio.Moderation.Roles.{top_role, get_protected_roles, get_permitted_roles, ◌>>=◌}
use reactaio.Moderation.Checks.{Texts, Verdict, check_members, report}
use reactaio.Moderation.Session.{reject}

pub record Policy : Type 0 where
  pub texts : Texts
  pub name : Text
  pub bot_can : Role → Bool
  pub author_can : Role → Bool
  pub bot_lacks : Text
  pub refused : Text
  pub title : Text

-- What begins a transaction of its own while that of the caller is live.
abbrev pub inside_transaction {ℓ} : {A : Type ℓ} → World → Option A → Option A
inside_transaction w r = if w.refuses_nested then none else r

module _ (w : World) (c : Command) (p : Policy) where
  -- `check_kick_possible` and its like.
  unfoldable pub check_possible : List ℕ → List Member → Verdict → Option Verdict
  check_possible protected_roles members v = do
    bot ← top_role w w.bot_member
    author ← top_role w c.author
    bot_top ← w.role_at bot
    author_top ← w.role_at author
    check_members w p.texts c.author false protected_roles bot_top author_top members v

  -- The author's flag decides; a list of permitted roles only adds the roles in it.
  unfoldable pub is_refused : List ℕ → ℕ → Role → Bool
  is_refused roles author author_top =
      (null roles && not (p.author_can author_top))
      || (not (null roles)
          && (not (p.author_can author_top) && not (contains role_key roles author)))

  -- The tests of `check_permissions`, on `errors` and `cancel_operation`. The transaction that it
  -- begins is not used, and stays live while the lists of roles are asked for.
  unfoldable pub judge_command : List Member → Verdict → Option Verdict
  unfolding check_possible is_refused
  judge_command members v = do
    bot ← top_role w w.bot_member
    author ← top_role w c.author
    bot_top ← w.role_at bot
    protected_roles ← inside_transaction w (get_protected_roles w)
    roles ← get_permitted_roles w p.name
    author_top ← w.role_at author
    let v' = if p.bot_can bot_top then v else report p.bot_lacks v
    if is_refused roles author author_top
        then some (report p.refused v')
        else check_possible protected_roles members v'

  unfoldable pub check_permissions : Session → Option Session
  unfolding judge_command
  check_permissions s = do
    v ←
        judge_command s.members
          (record { errors = s.errors; cancel_operation = s.cancel_operation; is_owner = false })
    let s' = record s { errors = v.errors; cancel_operation = v.cancel_operation }
    if v.cancel_operation then reject w c p.title s' else some s'
