-- ===== src/Moderation/Checks.antt =====
-- The checks on the members that a moderation command names. The kick, ban, mute, unmute, soft ban
-- and warn commands of src/cogs/moderation/wrappers make the same ones with texts of their own.
pub mod Allowed
use reactaio.Prelude.{
  ℕ, Bool, true, false, not, ◌&&◌, List, [], ◌∷◌, ◌++◌, Option, none, some, if◌then◌else◌, ltb,
  ◌==◌, null, Text, codes,
}
use reactaio.Helpers.{join}
use reactaio.Algorithm.{set_intersection}
use reactaio.UniqueVector.Access.{front}
use reactaio.Moderation.World.{Role, Member, World, role_key}
use reactaio.Moderation.Roles.{get_roles_sorted, ◌>>=◌}

-- The texts of one command's errors.
pub record Texts : Type 0 where
  pub self_owner : Text
  pub self : Text
  pub owner : Text
  pub bot_account : Text
  pub bot : Text
  pub protected : Text → Text
  pub above_bot : Text → Text
  pub above_author : Text → Text

-- The sign that begins an error, in UTF-8.
unfoldable pub cross : Text
cross = 226 ∷ 157 ∷ 140 ∷ b' ' ∷ []

-- The commands share their texts, but for the verb.
unfoldable pub command_texts : Text → Text → Texts
unfolding cross
command_texts verb verbing = record {
  self_owner =
      cross ++ (codes "Why are you " ++ (verbing ++ codes " yourself, server owner? lmfao"));
  self = cross ++ (codes "You can't " ++ (verb ++ codes " yourself lmao."));
  owner = cross ++ (codes "You can't " ++ (verb ++ codes " the server owner lmfao."));
  bot_account = cross ++ codes "Cannot warn a bot. What would that even do lol?";
  bot = cross ++ (codes "Can't " ++ (verb ++ codes " myself lmfao."));
  protected = λ roles.
      cross
      ++ (codes "Member has the protected roles: "
          ++ (roles ++ (codes ". Cannot " ++ (verb ++ codes "."))));
  above_bot = λ mention.
      cross
      ++ (mention
          ++ (codes " has a higher role than the bot. Unable to "
              ++ (verb
                  ++ (codes ". Please move the bot role above the members and below your staff "
                      ++ codes "roles."))));
  above_author = λ mention.
      cross
      ++ (mention
          ++ (codes " has a higher role than you do. You can't " ++ (verb ++ codes " them.")));
}

-- The variables of a check: `errors`, `cancel_operation` and `is_owner`.
pub record Verdict : Type 0 where
  pub errors : List Text
  pub cancel_operation : Bool
  pub is_owner : Bool

abbrev pub report : Text → Verdict → Verdict
report e v = record v { errors = v.errors ++ e ∷ []; cancel_operation = true }

module _ (w : World) (t : Texts) (author : Member) where
  unfoldable pub check_self : Member → Verdict → Verdict
  check_self m v =
      if author.user_id == m.user_id
      then if m.is_guild_owner
        then record (report t.self_owner v) { is_owner = true }
        else report t.self v
      else v

  unfoldable pub check_owner : Member → Verdict → Verdict
  check_owner m v = if not v.is_owner && m.is_guild_owner then report t.owner v else v

  unfoldable pub check_bot : Member → Verdict → Verdict
  check_bot m v = if w.bot_id == m.user_id then report t.bot v else v

  -- The warn command alone refuses all accounts of bots.
  unfoldable pub check_bot_account : Bool → Member → Verdict → Verdict
  check_bot_account no_bots m v = if no_bots && m.is_bot then report t.bot_account v else v

  -- `role->get_mention()` of each role; to follow a null pointer is undefined.
  unfoldable pub mentions : List ℕ → Option (List Text)
  mentions [] = some []
  mentions (a ∷ roles) = do role ← w.role_at a; rest ← mentions roles; some (role.mention ∷ rest)

  -- A common role is an error that names all of them.
  unfoldable pub judge : List ℕ → Verdict → Option Verdict
  unfolding mentions
  judge [] v = some v
  judge (a ∷ others) v = do
    names ← mentions (a ∷ others)
    some (report (t.protected (join names (codes " , "))) v)

  unfoldable pub check_protected : List ℕ → List ℕ → Verdict → Option Verdict
  unfolding judge
  check_protected protected_roles member_roles v =
      if null protected_roles
      then some v
      else (set_intersection role_key w.past_roles protected_roles member_roles [] >>= λ common.
          judge common v)

  unfoldable pub check_positions : Member → Role → Role → Role → Verdict → Verdict
  check_positions m member_top bot_top author_top v =
      let v' =
        if ltb bot_top.position member_top.position then report (t.above_bot m.mention) v else v in
      if ltb author_top.position member_top.position
      then report (t.above_author m.mention) v'
      else v'

  -- One round of the loop over the members.
  unfoldable pub check_member : Bool → List ℕ → Role → Role → Member → Verdict → Option Verdict
  unfolding check_self check_owner check_bot check_bot_account check_protected check_positions
  check_member no_bots protected_roles bot_top author_top m v = do
    member_roles ← get_roles_sorted w m.roles true
    top ← front member_roles
    v' ←
        check_protected protected_roles member_roles
          (check_bot m (check_bot_account no_bots m (check_owner m (check_self m v))))
    member_top ← w.role_at top
    some (check_positions m member_top bot_top author_top v')

  unfoldable pub check_members :
      Bool → List ℕ → Role → Role → List Member → Verdict → Option Verdict
  unfolding check_member
  check_members no_bots protected_roles bot_top author_top [] v = some v
  check_members no_bots protected_roles bot_top author_top (m ∷ members) v = do
    v' ← check_member no_bots protected_roles bot_top author_top m v
    check_members no_bots protected_roles bot_top author_top members v'
