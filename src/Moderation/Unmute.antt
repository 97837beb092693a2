-- ===== src/Moderation/Unmute.antt =====
-- src/cogs/moderation/wrappers/unmute/unmute_wrapper.cpp
use reactaio.Prelude.{
  ℕ, Bool, true, ◌==◌, none, not, false, List, [], ◌∷◌, ◌++◌, Option, some, if◌then◌else◌, Text,
  codes,
}
use reactaio.Decimal.{to_string}
use reactaio.UniqueVector.{insert}
use reactaio.Moderation.World.{
  Member, World, Command, Session, Request, guild_member_delete_role, guild_member_timeout_remove,
  Completion, succeeded, failed, member_key, direct_message,
}
use reactaio.Moderation.Roles.{◌>>=◌}
use reactaio.Moderation.Checks.{cross, command_texts}
use reactaio.Moderation.Open.{Open, judge_open, copy_protected_roles, reject_open}
use reactaio.Moderation.Session.{request, with_command}
use reactaio.Moderation.Notices
use reactaio.Moderation.Notices.{Kind}

unfoldable pub checks : Open
checks = record {
  texts = command_texts (codes "unmute") (codes "unmuting");
  no_bots = false;
  bot_can = λ r. r.has_moderate_members;
  bot_lacks =
      cross
      ++ (codes "Bot lacks the appropriate permissions. Please check if the bot has Moderate "
          ++ codes "Members permission.");
}

unfoldable pub kind : Kind
kind = record {
  name = codes "Unmute";
  error_title = codes "Error while unmuting member(s): ";
  asks_itself = true;
  needs_row = false;
  one_title = codes "Unmuted";
  many_title = codes "Mass unmuted";
  has_been = codes " has been unmuted.";
  have_been = codes " have been unmuted.";
  one_image = codes "https://tenor.com/view/neo-mouthshut-matrix-blue-pill-gif-22455602";
  many_image =
      codes "https://canary.discord.com/channels/1011029958740684841/1012300461384138842/"
      ++ codes "1019704810267750440";
  logs =
      record {
        column = codes "modlog";
        many = codes "Members unmuted: ";
        one = codes "Member unmuted: ";
        have_been = codes " have been unmuted.";
      }
      ∷ record {
        column = codes "public_modlog";
        many = codes "Members unmuted: ";
        one = codes "Member unmuted: ";
        have_been = codes " have been unmute.";
      }
      ∷ [];
}

-- `mute_role` of `process_unmutes`: the address of the role, 0 for no role.
unfoldable pub mute_role : World → ℕ
mute_role w = elim w.mute_role [ none ↦ 0 | some role ↦ w.find_role role ]

-- The loop of `process_unmutes`. A role is taken away by the id that the mute role was found by.
unfoldable pub unmute_requests : Option ℕ → List Member → List Request
unmute_requests role [] = []
unmute_requests none (m ∷ members) =
    guild_member_timeout_remove m.user_id ∷ unmute_requests none members
unmute_requests (some id) (m ∷ members) =
    guild_member_delete_role m.user_id id
    ∷ guild_member_timeout_remove m.user_id
    ∷ unmute_requests (some id) members

-- `process_unmutes`, with the new value of `use_mute_callback`.
unfoldable pub process_unmutes : World → Command → Session → Option (Bool × Session)
unfolding mute_role unmute_requests
process_unmutes w c s =
    let none_found = mute_role w == 0 in
    let role = if none_found then none else w.mute_role in
    with_command s
      (some (not none_found, record s { requests = s.requests ++ unmute_requests role s.members }))

unfoldable pub process_response : World → Command → Session → Option Session
unfolding kind
process_response w c s = Notices.process_response w c kind s

module _ (w : World) (c : Command) where
  unfoldable pub check_permissions : (Option (List ℕ) → List ℕ) → Session → Option Session
  check_permissions parse_psql_array s = do
    protected_roles ← copy_protected_roles w c parse_psql_array
    v ←
        judge_open w c checks protected_roles s.members
          (record { errors = s.errors; cancel_operation = s.cancel_operation; is_owner = false })
    let s' = record s { errors = v.errors; cancel_operation = v.cancel_operation }
    if v.cancel_operation
        then reject_open w c (codes "Error while unmuting member(s): ") s'
        else some s'

  unfoldable unmuted : Bool → Text
  unmuted use_mute_callback =
      (if use_mute_callback
        then codes "Your timeout has been removed in "
        else codes "Your have been unmuted in ")
      ++ (c.guild_name ++ (codes " by " ++ (c.author.username ++ (codes ". Reason: " ++ c.reason))))

  unfoldable pub lambda_callback : Bool → Completion → Member → Session → Option Session
  unfolding unmuted
  lambda_callback use_mute_callback succeeded m s =
      some (request (direct_message m.user_id (unmuted use_mute_callback)) s)
  lambda_callback use_mute_callback (failed code reason) m s =
      insert member_key w.past_members m s.members_with_errors >>= λ with_errors. some (record s {
        errors =
            s.errors
            ++ (cross ++ (codes "Error code " ++ (to_string code ++ (codes ": " ++ reason)))) ∷ [];
        members_with_errors = with_errors;
      })

  unfoldable pub wrapper_function : (Option (List ℕ) → List ℕ) → Session → Option Session
  unfolding check_permissions process_unmutes process_response
  wrapper_function parse_psql_array s = check_permissions parse_psql_array s >>= λ s'.
      if s'.cancel_operation
      then some s'
      else (process_unmutes w c s' >>= λ (_, s''). process_response w c s'')
