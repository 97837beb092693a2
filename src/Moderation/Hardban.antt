-- ===== src/Moderation/Hardban.antt =====
-- src/cogs/moderation/wrappers/hardban/hardban_wrapper.cpp
pub mod Granted
pub mod Safety
use reactaio.Prelude.{
  ◌*◌, ◌%◌, ◌^◌, ◌+◌, none, map, ℕ, Bool, true, false, not, ◌&&◌, ◌==◌, ltb, List, [], ◌∷◌, ◌++◌,
  Option, some, if◌then◌else◌, null, Text, codes,
}
use reactaio.UniqueVector.Access.{front}
use reactaio.Decimal.{to_string}
use reactaio.UniqueVector.{insert}
use reactaio.Moderation.Session.{with_command}
use reactaio.Moderation.Hybrid
use reactaio.Moderation.Hybrid.{Hybrid}
use reactaio.Moderation.Bans
use reactaio.Moderation.Bans.{Kind, wrapper}
use reactaio.Moderation.World.{
  User, Request, Completion, succeeded, failed, user_key, direct_message, guild_ban_add,
  modcase_insert, Role, Member, World, Command, Session,
}
use reactaio.Moderation.Roles.{get_roles_sorted, top_role, get_protected_roles, ◌>>=◌}
use reactaio.Moderation.Checks.{Texts, Verdict, cross, command_texts, check_protected, report}
use reactaio.Moderation.Session.{reject}

unfoldable pub texts : Texts
texts = record (command_texts (codes "hard ban") (codes "hard banning")) {
  self_owner = cross ++ codes "Why are you trying to hard ban yourself, server owner? lmfao";
}

unfoldable empty_list : Text
empty_list =
    cross
    ++ (codes "Error while parsing the list. It's possible that the provided ids were all "
        ++ codes "invalid.")

unfoldable not_the_owner : Text
not_the_owner =
    cross
    ++ (codes "Can't hard ban anyone unless you're the server owner. This is a hardcoded condition "
        ++ codes "and cannot be changed.")

unfoldable bot_lacks : Text
bot_lacks =
    cross
    ++ (codes "Bot doesn't have the appropriate permissions. Please make sure the Ban Members "
        ++ codes "permission is enabled.")

module _ (w : World) (c : Command) where
  -- The tests of a member before the one of the protected roles.
  unfoldable pub check_member : Role → Role → Member → Verdict → Verdict
  check_member bot_top member_top m v =
      let v1 = if m.is_guild_owner then report texts.self_owner v else v in
      let v2 = if w.bot_id == m.user_id then report texts.bot v1 else v1 in
      if ltb bot_top.position member_top.position then report (texts.above_bot m.mention) v2 else v2

  unfoldable pub check_members : List ℕ → Role → List Member → Verdict → Option Verdict
  unfolding check_member
  check_members protected_roles bot_top [] v = some v
  check_members protected_roles bot_top (m ∷ members) v = do
    member_roles ← get_roles_sorted w m.roles true
    top ← front member_roles
    member_top ← w.role_at top
    v' ←
        check_protected w texts c.author protected_roles member_roles
          (check_member bot_top member_top m v)
    check_members protected_roles bot_top members v'

  -- With no member the bot's top role is not followed here.
  unfoldable pub check_hardban_possible : List ℕ → List Member → Verdict → Option Verdict
  unfolding check_members
  check_hardban_possible protected_roles members v = do
    bot ← top_role w w.bot_member
    author_roles ← get_roles_sorted w c.author.roles true
    if null members
        then some v
        else (w.role_at bot >>= λ bot_top. check_members protected_roles bot_top members v)

  -- The errors of an empty list and of an author that is not the owner are not sent.
  unfoldable pub check_permissions : List ℕ → Session → Option Session
  unfolding empty_list not_the_owner bot_lacks check_hardban_possible
  check_permissions users s =
      if null s.members && null users
      then some (record s { errors = s.errors ++ empty_list ∷ []; cancel_operation = true })
      else if not c.author.is_guild_owner
      then some (record s { errors = s.errors ++ not_the_owner ∷ []; cancel_operation = true })
      else (top_role w w.bot_member >>= λ bot.
          get_roles_sorted w c.author.roles true >>= λ author_roles.
          get_protected_roles w >>= λ protected_roles. w.role_at bot >>= λ bot_top.
          let v : Verdict = record {
            errors = s.errors;
            cancel_operation = s.cancel_operation;
            is_owner = false;
          } in
          let v' = if bot_top.has_ban_members then v else report bot_lacks v in
          check_hardban_possible protected_roles s.members v' >>= λ u.
          let s' = record s { errors = u.errors; cancel_operation = u.cancel_operation } in
          if u.cancel_operation
          then reject w c (codes "Error while hard banning member(s): ") s'
          else some s')

unfoldable pub hardban_name : Text
hardban_name = codes "Hard Ban"

unfoldable pub kind : Kind
unfolding hardban_name
kind = record {
  name = hardban_name;
  error_title = codes "Error while hard banning member(s): ";
  asks_itself = false;
  title = codes "Hard banned";
  has_been = codes " has been hard banned";
  have_been = codes " have been hard banned";
  until = true;
  logs_until = false;
  logs =
      record {
        column = codes "member_ban_add";
        many = codes "Users hard banned: ";
        one = codes "Users hard banned: ";
      }
      ∷ record {
        column = codes "modlog";
        many = codes "Users hard banned: ";
        one = codes "User hard banned: ";
      }
      ∷ record {
        column = codes "public_modlog";
        many = codes "Users hard banned: ";
        one = codes "User hard banned: ";
      }
      ∷ [];
}

unfoldable dm_text : Command → Text
dm_text c =
    codes "You have been hard banned from "
    ++ (c.guild_name
        ++ (codes " by "
            ++ (c.author.username
                ++ (codes ". Reason: " ++ (c.reason ++ codes ". Only they can unban you.")))))

-- The seconds of `ban_remove_days`, in 32 bits. A null is read as a number, which throws.
unfoldable pub ban_remove_seconds : World → Option ℕ
ban_remove_seconds w = elim w.ban_remove_days [
  | none ↦ some 0
  | some row ↦ (row >>= λ days. some (days * (24 * 3600) % 2 ^ 32))
]

-- The loop of `process_hardbans`.
unfoldable pub hardban_requests : Command → ℕ → List User → List Request
unfolding dm_text
hardban_requests c seconds [] = []
hardban_requests c seconds (u ∷ users) =
    let rest = hardban_requests c seconds users in
    if c.interaction
    then direct_message u.id (dm_text c) ∷ guild_ban_add u.id seconds ∷ rest
    else guild_ban_add u.id seconds ∷ rest

unfoldable pub process_hardbans : World → Command → Hybrid → Option Hybrid
unfolding hardban_requests ban_remove_seconds
process_hardbans w c h = with_command h.base (
    ban_remove_seconds w >>= λ seconds. some (record h {
      base = record h.base { requests = h.base.requests ++ hardban_requests c seconds h.users };
    }))

unfoldable failure_text : User → ℕ → Text → Text
failure_text u code reason =
    cross
    ++ (codes "Unable to hard ban user **"
        ++ (u.username
            ++ (codes "**. Error code "
                ++ (to_string code ++ (codes ": " ++ (reason ++ codes "."))))))

-- `lambda_callback`, when the ban of `u` has ended.
unfoldable pub lambda_callback : World → Completion → User → Hybrid → Option Hybrid
unfolding failure_text hardban_name
lambda_callback w succeeded u h = Hybrid.log_modcase w hardban_name h
lambda_callback w (failed code reason) u h =
    insert user_key w.past_users u h.users_with_errors >>= λ with_errors. some (record h {
      base = record h.base { errors = h.base.errors ++ failure_text u code reason ∷ [] };
      users_with_errors = with_errors;
    })

unfoldable invalid_title : Text
invalid_title = cross ++ codes "Error while hard banning member(s): "

unfoldable pub process_response : World → Command → Hybrid → Option Hybrid
unfolding kind
process_response w c h = Bans.process_response w c kind h

unfoldable pub wrapper_function : World → Command → Hybrid → Option Hybrid
unfolding check_permissions process_hardbans invalid_title process_response
wrapper_function w c h =
    wrapper w c true invalid_title (check_permissions w c) (process_hardbans w c)
      (process_response w c) h
