-- ===== src/Moderation/Softban.antt =====
-- src/cogs/moderation/wrappers/softban/softban_wrapper.cpp
pub mod Automatic
use reactaio.Prelude.{
  ◌%◌, ◌^◌, ◌+◌, none, ℕ, Bool, true, false, ◌&&◌, List, [], ◌∷◌, ◌++◌, Option, some, if◌then◌else◌,
  null, Text, codes,
}
use reactaio.Decimal.{to_string}
use reactaio.UniqueVector.{insert}
use reactaio.Moderation.Session.{with_command}
use reactaio.Moderation.Hybrid.{Hybrid}
use reactaio.Moderation.Bans
use reactaio.Moderation.Bans.{Kind, wrapper}
use reactaio.Moderation.World.{
  User, Request, Completion, succeeded, failed, user_key, direct_message, guild_ban_add,
  modcase_insert, World, Command, Session,
}
use reactaio.Moderation.Roles.{◌>>=◌}
use reactaio.Moderation.Checks.{cross, command_texts}
use reactaio.Moderation.Open.{Open, judge_open, copy_protected_roles, reject_open}

unfoldable pub checks : Open
checks = record {
  texts = command_texts (codes "soft ban") (codes "soft banning");
  no_bots = false;
  bot_can = λ r. r.has_ban_members;
  bot_lacks =
      cross
      ++ (codes "Bot doesn't have the appropriate permissions. Please make sure the Ban Members "
          ++ codes "permission is enabled.");
}

unfoldable empty_list : Text
empty_list =
    cross
    ++ (codes "Error while parsing the list. It's possible that the provided ids were all "
        ++ codes "invalid.")

module _ (w : World) (c : Command) (parse_psql_array : Option (List ℕ) → List ℕ) where
  unfoldable pub check_permissions : List ℕ → Session → Option Session
  unfolding empty_list
  check_permissions users s =
      if null s.members && null users
      then some (record s { errors = s.errors ++ empty_list ∷ []; cancel_operation = true })
      else (copy_protected_roles w c parse_psql_array >>= λ protected_roles.
          judge_open w c checks protected_roles s.members
            (record { errors = s.errors; cancel_operation = s.cancel_operation; is_owner = false })
          >>= λ v.
              let s' = record s { errors = v.errors; cancel_operation = v.cancel_operation } in
              if v.cancel_operation
              then reject_open w c (codes "Error while soft banning member(s): ") s'
              else some s')

unfoldable pub softban_name : Text
softban_name = codes "Soft Ban"

unfoldable pub kind : Kind
unfolding softban_name
kind = record {
  name = softban_name;
  error_title = codes "Error while soft banning member(s): ";
  asks_itself = true;
  title = codes "Soft Banned";
  has_been = codes " has been soft banned";
  have_been = codes " have been soft banned";
  until = false;
  logs_until = false;
  logs =
      record {
        column = codes "member_ban_add";
        many = codes "Users soft banned: ";
        one = codes "Users soft banned: ";
      }
      ∷ record {
        column = codes "modlog";
        many = codes "Users banned: ";
        one = codes "User banned: ";
      }
      ∷ record {
        column = codes "public_modlog";
        many = codes "Users soft banned: ";
        one = codes "User soft banned: ";
      }
      ∷ [];
}

-- `max_ban_remove_seconds`
abbrev max_ban_remove_seconds : ℕ
max_ban_remove_seconds = 604800

unfoldable dm_text : Command → Text
dm_text c =
    codes "You have been soft banned from "
    ++ (c.guild_name
        ++ (codes " by " ++ (c.author.username ++ (codes ". Reason: " ++ (c.reason ++ codes ".")))))

-- The loop of `process_softbans`.
unfoldable pub softban_requests : Command → List User → List Request
unfolding dm_text
softban_requests c [] = []
softban_requests c (u ∷ users) =
    let rest = softban_requests c users in
    if c.interaction
    then direct_message u.id (dm_text c) ∷ guild_ban_add u.id max_ban_remove_seconds ∷ rest
    else guild_ban_add u.id max_ban_remove_seconds ∷ rest

unfoldable pub process_softbans : Command → Hybrid → Option Hybrid
unfolding softban_requests
process_softbans c h = with_command h.base (
    some (record h {
      base = record h.base { requests = h.base.requests ++ softban_requests c h.users };
    }))

unfoldable failure_text : User → ℕ → Text → Text
failure_text u code reason =
    cross
    ++ (codes "Unable to soft ban user **"
        ++ (u.username
            ++ (codes "**. Error code "
                ++ (to_string code ++ (codes ": " ++ (reason ++ codes "."))))))

-- `lambda_callback`, when the ban of `u` has ended. The highest case id is read as a number, which
-- throws where it is null.
unfoldable pub lambda_callback : World → Completion → User → Hybrid → Option Hybrid
unfolding failure_text softban_name
lambda_callback w succeeded u h = with_command h.base (
    w.case_id >>= λ row. row >>= λ last. some (record h {
      base = record h.base {
        requests = h.base.requests ++ modcase_insert ((last + 1) % 2 ^ 64) softban_name u.id ∷ [];
      };
    }))
lambda_callback w (failed code reason) u h =
    insert user_key w.past_users u h.users_with_errors >>= λ with_errors. some (record h {
      base = record h.base { errors = h.base.errors ++ failure_text u code reason ∷ [] };
      users_with_errors = with_errors;
    })

unfoldable invalid_title : Text
invalid_title = cross ++ codes "Error while soft banning member(s): "

unfoldable pub process_response : World → Command → Hybrid → Option Hybrid
unfolding kind
process_response w c h = Bans.process_response w c kind h

unfoldable pub wrapper_function :
    World → Command → (Option (List ℕ) → List ℕ) → Hybrid → Option Hybrid
unfolding check_permissions process_softbans invalid_title process_response
wrapper_function w c parse_psql_array h =
    wrapper w c true invalid_title (check_permissions w c parse_psql_array) (process_softbans c)
      (process_response w c) h
