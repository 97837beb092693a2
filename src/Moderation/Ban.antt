-- ===== src/Moderation/Ban.antt =====
-- src/cogs/moderation/wrappers/ban/ban_wrapper.cpp
pub mod Safety
pub mod Granted
pub mod Permanent
use reactaio.Prelude.{
  ◌+◌, ◌*◌, ◌%◌, ◌^◌, ◌==◌, none, false, map, ℕ, true, ◌&&◌, List, [], ◌∷◌, ◌++◌, Option, some,
  if◌then◌else◌, null, Text, codes,
}
use reactaio.Decimal.{to_string}
use reactaio.Duration.{Duration, to_seconds}
use reactaio.UniqueVector.{insert}
use reactaio.Moderation.Roles.{◌>>=◌}
use reactaio.Moderation.Session.{with_command}
use reactaio.Moderation.Hybrid.{Hybrid, log_modcase}
use reactaio.Moderation.Bans
use reactaio.Moderation.Bans.{Kind, wrapper}
use reactaio.Moderation.World.{
  User, Request, Completion, succeeded, failed, user_key, direct_message, guild_ban_add, tempban,
  Member, World, Command, Session,
}
use reactaio.Moderation.Checks.{Verdict, cross, command_texts}
use reactaio.Moderation.Policy
use reactaio.Moderation.Policy.{Policy}

unfoldable pub policy : Policy
policy = record {
  texts = command_texts (codes "ban") (codes "banning");
  name = codes "Ban";
  bot_can = λ r. r.has_ban_members;
  author_can = λ r. r.has_ban_members;
  bot_lacks =
      cross
      ++ (codes "Bot doesn't have the appropriate permissions. Please make sure the Ban Members "
          ++ codes "permission is enabled.");
  refused = cross ++ codes "You do not have permission to run this command.";
  title = codes "Error while banning member(s): ";
}

unfoldable pub empty_list : Text
empty_list =
    cross
    ++ (codes "Error while parsing the list. It's possible that the provided ids were all "
        ++ codes "invalid.")

unfoldable pub check_ban_possible :
    World → Command → List ℕ → List Member → Verdict → Option Verdict
check_ban_possible w c protected_roles members v =
    Policy.check_possible w c policy protected_roles members v

-- With neither a member nor a user the command is cancelled, and the error that says so is not sent.
unfoldable pub check_permissions : World → Command → List ℕ → Session → Option Session
unfolding check_ban_possible empty_list
check_permissions w c users s =
    if null s.members && null users
    then some (record s { errors = s.errors ++ empty_list ∷ []; cancel_operation = true })
    else Policy.check_permissions w c policy s

unfoldable pub kind : Kind
kind = record {
  name = codes "Ban";
  error_title = codes "Error while banning member(s): ";
  asks_itself = false;
  title = codes "Banned";
  has_been = codes " has been banned";
  have_been = codes " have been banned";
  until = true;
  logs_until = true;
  logs =
      record {
        column = codes "member_ban_add";
        many = codes "Users banned: ";
        one = codes "Users banned: ";
      }
      ∷ record {
        column = codes "modlog";
        many = codes "Users banned: ";
        one = codes "User banned: ";
      }
      ∷ record {
        column = codes "public_modlog";
        many = codes "Users banned: ";
        one = codes "User banned: ";
      }
      ∷ [];
}

-- `ban_remove_days`, in seconds if it comes from the database; the product is taken in 32 bits. A
-- null there is read as a number, which throws. The number of the command is left as it is.
unfoldable pub ban_remove_seconds : World → Command → Option ℕ
ban_remove_seconds w c =
    if c.delete_message_days == 0
    then elim w.ban_remove_days [
      | none ↦ some 0
      | some row ↦ (row >>= λ days. some (days * (24 * 3600) % 2 ^ 32))
    ]
    else some c.delete_message_days

-- `ban_id`. A query for one row throws where the guild has no temporary ban.
unfoldable pub next_ban : World → Option ℕ
next_ban w = w.ban_id >>= λ row. some (elim row [ none ↦ 1 | some n ↦ (n + 1) % 2 ^ 32 ])

unfoldable pub dm_text : World → Command → Option Duration → Text
dm_text w c none =
    codes "You have been banned from "
    ++ (c.guild_name
        ++ (codes " by " ++ (c.author.username ++ (codes ". Reason: " ++ (c.reason ++ codes ".")))))
dm_text w c (some d) =
    codes "You have been banned by from "
    ++ (c.guild_name
        ++ (codes " by "
            ++ (c.author.username
                ++ (codes " until "
                    ++ (w.relative_time (to_seconds d) ++ (codes ". Reason: " ++ c.reason))))))

-- One round of `process_bans`. The row of a temporary ban is written by a transaction that has been
-- committed before the loop.
unfoldable pub ban_one : World → Command → ℕ → ℕ → Option Duration → User → Option (List Request)
unfolding dm_text
ban_one w c seconds id duration u =
    let ban : Request = guild_ban_add u.id seconds in
    let message : Request = direct_message u.id (dm_text w c duration) in
    if c.interaction
    then elim duration [
      | none ↦ some (message ∷ ban ∷ [])
      | some d ↦
          if w.executes_after_commit
          then some (tempban id u.id (to_seconds d) ∷ message ∷ ban ∷ [])
          else none
    ]
    else some (ban ∷ [])

unfoldable pub ban_requests :
    World → Command → ℕ → ℕ → Option Duration → List User → Option (List Request)
unfolding ban_one
ban_requests w c seconds id duration [] = some []
ban_requests w c seconds id duration (u ∷ users) = do
  requests ← ban_one w c seconds id duration u
  rest ← ban_requests w c seconds id duration users
  some (requests ++ rest)

unfoldable pub process_bans : World → Command → Hybrid → Option Hybrid
unfolding ban_requests ban_remove_seconds next_ban
process_bans w c h = with_command h.base (
    ban_remove_seconds w c >>= λ seconds. next_ban w >>= λ id.
    ban_requests w c seconds id h.base.duration h.users >>= λ requests.
    some (record h { base = record h.base { requests = h.base.requests ++ requests } }))

unfoldable pub failure_text : User → ℕ → Text → Text
failure_text u code reason =
    cross
    ++ (codes "Unable to ban user **"
        ++ (u.username
            ++ (codes "**. Error code "
                ++ (to_string code ++ (codes ": " ++ (reason ++ codes "."))))))

-- `lambda_callback`, when the ban of `u` has ended.
unfoldable pub lambda_callback : World → Completion → User → Hybrid → Option Hybrid
unfolding failure_text
lambda_callback w succeeded u h = log_modcase w (codes "Ban") h
lambda_callback w (failed code reason) u h =
    insert user_key w.past_users u h.users_with_errors >>= λ with_errors. some (record h {
      base = record h.base { errors = h.base.errors ++ failure_text u code reason ∷ [] };
      users_with_errors = with_errors;
    })

unfoldable pub invalid_title : Text
unfolding cross
invalid_title = cross ++ codes "Error while banning member(s): "

unfoldable pub process_response : World → Command → Hybrid → Option Hybrid
unfolding kind
process_response w c h = Bans.process_response w c kind h

unfoldable pub wrapper_function : World → Command → Hybrid → Option Hybrid
unfolding check_permissions process_bans invalid_title process_response
wrapper_function w c h =
    wrapper w c false invalid_title (check_permissions w c) (process_bans w c)
      (process_response w c) h
