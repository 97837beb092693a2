-- ===== src/Moderation/Warn.antt =====
-- src/cogs/moderation/wrappers/warn/warn_wrapper.cpp
pub mod Safety
use reactaio.Prelude.{true, false, List, [], ◌∷◌, ◌++◌, Option, some, if◌then◌else◌, Text, codes}
use reactaio.Decimal.{to_string}
use reactaio.UniqueVector.{insert}
use reactaio.Moderation.World.{
  Member, World, Command, Request, Session, Completion, succeeded, failed, member_key,
  direct_message,
}
use reactaio.Moderation.Roles.{get_protected_roles, ◌>>=◌}
use reactaio.Moderation.Checks.{cross, command_texts}
use reactaio.Moderation.Open.{Open, judge_open}
use reactaio.Moderation.Session.{reject, log_modcase}
use reactaio.Moderation.Notices
use reactaio.Moderation.Notices.{Kind}

unfoldable pub warn_name : Text
warn_name = codes "Warning"

unfoldable pub checks : Open
checks = record {
  texts = command_texts (codes "warn") (codes "warning");
  no_bots = true;
  bot_can = λ r. r.has_moderate_members;
  bot_lacks =
      cross
      ++ (codes "Bot lacks the appropriate permissions. Please check ifthe bot has Moderate "
          ++ codes "Members permission.");
}

unfoldable pub check_permissions : World → Command → Session → Option Session
check_permissions w c s = do
  protected_roles ← get_protected_roles w
  v ←
      judge_open w c checks protected_roles s.members
        (record { errors = s.errors; cancel_operation = s.cancel_operation; is_owner = false })
  let s' = record s { errors = v.errors; cancel_operation = v.cancel_operation }
  if v.cancel_operation then reject w c (codes "Error while warning member(s): ") s' else some s'

-- `lambda_callback`, when the message to `m` has been sent or not: both log the cases.
unfoldable pub lambda_callback : World → Completion → Member → Session → Option Session
lambda_callback w succeeded m s = log_modcase w warn_name s
lambda_callback w (failed code reason) m s =
    insert member_key w.past_members m s.members_with_errors >>= λ with_errors.
    log_modcase w warn_name (record s {
      errors =
          s.errors
          ++ (codes "Unable to DM user **"
              ++ (m.username
                  ++ (codes "**. Warning registered. Error"
                      ++ (to_string code ++ (codes ": " ++ reason)))))
            ∷ [];
      members_with_errors = with_errors;
    })

unfoldable pub warning_message : Command → Member → Text
warning_message c m =
    codes "You have been warned in "
    ++ (c.guild_name
        ++ (codes " by " ++ (m.username ++ (codes ". Reason: " ++ (c.reason ++ codes ".")))))

-- The loop of `process_warnings`. Only a command with an interaction sends messages, and only the
-- end of a message logs a case.
unfoldable pub warning_requests : Command → List Member → List Request
unfolding warning_message
warning_requests c [] = []
warning_requests c (m ∷ ms) =
    if c.interaction
    then direct_message m.user_id (warning_message c m) ∷ warning_requests c ms
    else warning_requests c ms

unfoldable pub process_warnings : Command → Session → Session
unfolding warning_requests
process_warnings c s = record s { requests = s.requests ++ warning_requests c s.members }

unfoldable pub kind : Kind
unfolding warn_name
kind = record {
  name = warn_name;
  error_title = codes "Error while warning member(s): ";
  asks_itself = false;
  needs_row = true;
  one_title = codes "Warned";
  many_title = codes "Mass warned";
  has_been = codes " has been warned.";
  have_been = codes " have been warned.";
  one_image =
      codes "https://tenor.com/view/will-smith-chris-rock-jada-pinkett-smith-oscars2022-smack-gif-"
      ++ codes "25234614";
  many_image = codes "https://gfycat.com/agitatedincomparableicelandicsheepdog";
  logs =
      record {
        column = codes "modlog";
        many = codes "Members warned: ";
        one = codes "Member warned: ";
        have_been = codes " have been warned.";
      }
      ∷ record {
        column = codes "public_modlog";
        many = codes "Members warned: ";
        one = codes "Member warned: ";
        have_been = codes " have been warned.";
      }
      ∷ [];
}

unfoldable pub process_response : World → Command → Session → Option Session
unfolding kind
process_response w c s = Notices.process_response w c kind s

unfoldable pub wrapper_function : World → Command → Session → Option Session
unfolding check_permissions process_warnings process_response
wrapper_function w c s = check_permissions w c s >>= λ s'.
    if s'.cancel_operation then some s' else process_response w c (process_warnings c s')
