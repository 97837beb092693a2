-- ===== src/Moderation/Mute.antt =====
-- src/cogs/moderation/wrappers/mute/mute_wrapper.cpp
pub mod Safety
use reactaio.Prelude.{
  Bool, true, false, [], ◌∷◌, none, some, if◌then◌else◌, ◌==◌, ltb, get_elem?, Text, ℕ, List, ◌++◌,
  Option, codes,
}
use reactaio.Prelude.Result.{ok, throw}
use reactaio.Decimal.{to_string}
use reactaio.Duration.{Duration, to_seconds, parse_human_time}
use reactaio.UniqueVector.{insert}
use reactaio.Moderation.Roles.{◌>>=◌}
use reactaio.Moderation.Session.{with_command}
use reactaio.Moderation.Notices
use reactaio.Moderation.Notices.{Kind}
use reactaio.Moderation.World.{
  Request, Completion, succeeded, failed, member_key, direct_message, guild_member_timeout,
  guild_member_add_role, permanent_timeout, Member, World, Command, Session,
}
use reactaio.Moderation.Checks.{Verdict, cross, command_texts}
use reactaio.Moderation.Policy
use reactaio.Moderation.Policy.{Policy}

-- The bot must be able to moderate members, the author to kick them.
unfoldable pub policy : Policy
policy = record {
  texts = command_texts (codes "mute") (codes "muting");
  name = codes "Mute";
  bot_can = λ r. r.has_moderate_members;
  author_can = λ r. r.has_kick_members;
  bot_lacks =
      cross
      ++ (codes "Bot lacks the appropriate permissions. Please check ifthe bot has Moderate "
          ++ codes "Members permission.");
  refused = cross ++ codes "You do not have permission to run this command.";
  title = codes "Error while muting member(s): ";
}

unfoldable pub check_mute_possible :
    World → Command → List ℕ → List Member → Verdict → Option Verdict
check_mute_possible w c protected_roles members v =
    Policy.check_possible w c policy protected_roles members v

unfoldable pub check_permissions : World → Command → Session → Option Session
unfolding check_mute_possible
check_permissions w c s = Policy.check_permissions w c policy s

unfoldable pub kind : Bool → Kind
kind use_timeout = record {
  name = if use_timeout then codes "Timeout" else codes "Mute";
  error_title = codes "Error while muting member(s): ";
  asks_itself = false;
  needs_row = false;
  one_title = codes "Muted";
  many_title = codes "Mass muted";
  has_been = codes " has been muted.";
  have_been = codes " have been muted.";
  one_image = codes "https://tenor.com/view/neo-mouthshut-matrix-blue-pill-gif-22455602";
  many_image =
      codes "https://canary.discord.com/channels/1011029958740684841/1012300461384138842/"
      ++ codes "1019704810267750440";
  logs =
      record {
        column = codes "modlog";
        many = codes "Members muted: ";
        one = codes "Member muted: ";
        have_been = codes " have been muted.";
      }
      ∷ record {
        column = codes "public_modlog";
        many = codes "Members muted: ";
        one = codes "Member muted: ";
        have_been = codes " have been muted.";
      }
      ∷ [];
}

-- `max_timeout_seconds`
abbrev pub max_timeout_seconds : ℕ
max_timeout_seconds = 2419200

-- `duration::seconds()`: the part of the seconds alone.
unfoldable pub seconds : Duration → ℕ
seconds d = elim (get_elem? d.values 6) [ none ↦ 0 | some n ↦ n ]

unfoldable pub timeout_requests : ℕ → List Member → List Request
timeout_requests until [] = []
timeout_requests until (m ∷ members) =
    guild_member_timeout m.user_id until ∷ timeout_requests until members

-- The audit reason asks `duration` for its text, which nothing but a member needs.
unfoldable pub role_requests : ℕ → Option Duration → List Member → Option (List Request)
role_requests role duration [] = some []
role_requests role none (m ∷ members) = none
role_requests role (some d) (m ∷ members) = do
  rest ← role_requests role (some d) members
  some (guild_member_add_role m.user_id role ∷ rest)

unfoldable no_role : Text
no_role = cross ++ codes "No mute role set. Either set one or use the timeout feature."

unfoldable pub too_long : Text
too_long = cross ++ codes "Invalid timeout duration. Timeouts can only be max of 28 days."

-- `use_timeout`
unfoldable pub uses_timeout : World → Bool
uses_timeout w = elim w.use_timeout [ none ↦ true | some b ↦ b ]

-- What `process_mutes` does with a duration. The time of a permanent time-out is the number of seconds
-- itself.
unfoldable pub mute_for : World → Option Duration → Session → Option Session
unfolding timeout_requests role_requests no_role too_long uses_timeout seconds
mute_for w duration s =
    if uses_timeout w
    then elim duration [
      | none ↦
          some
            (record s { requests = s.requests ++ timeout_requests max_timeout_seconds s.members })
      | some d ↦
          if ltb max_timeout_seconds (seconds d)
          then some (record s { errors = s.errors ++ too_long ∷ [] })
          else some (record s {
            requests = s.requests ++ timeout_requests (w.time_after (to_seconds d)) s.members;
          })
    ]
    else elim w.mute_role [
      | none ↦ some (record s { errors = s.errors ++ no_role ∷ [] })
      | some role ↦
          if w.find_role role == 0
          then some (record s { errors = s.errors ++ no_role ∷ [] })
          else (role_requests role duration s.members >>= λ requests.
              some (record s { requests = s.requests ++ requests }))
    ]

unfoldable pub process_mutes : World → Command → Session → Option Session
unfolding mute_for
process_mutes w c s = with_command s (elim (parse_human_time c.duration) [
  | throw e ↦ none
  | ok duration ↦ mute_for w duration (record s { duration = duration })
])

unfoldable muted_text : World → Command → Option Duration → Text
unfolding uses_timeout
muted_text w c duration =
    codes "You have been "
    ++ ((if uses_timeout w then codes "Timed out" else codes "Muted")
        ++ (codes " in "
            ++ (c.guild_name
                ++ (codes " by "
                    ++ (c.author.username
                        ++ (codes " until "
                            ++ (elim duration [
                              | none ↦ codes "unmuted"
                              | some d ↦ w.relative_time (to_seconds d)
                            ]
                                ++ codes ".")))))))

-- `lambda_callback`, when the mute of `m` has ended. A mute by role without a duration reads a number
-- of seconds that has not been set. With a duration, "tempmute" gets five of its seven parameters,
-- and the database throws. So does `exec_prepared1` when "get_timeout_id" finds no row.
unfoldable pub lambda_callback : World → Command → Completion → Member → Session → Option Session
unfolding muted_text uses_timeout
lambda_callback w c (failed code reason) m s =
    insert member_key w.past_members m s.members_with_errors >>= λ with_errors. some (record s {
      errors =
          s.errors
          ++ (cross ++ (codes "Error code " ++ (to_string code ++ (codes ": " ++ reason)))) ∷ [];
      members_with_errors = with_errors;
    })
lambda_callback w c succeeded m s = with_command s (elim s.duration [
  | some d ↦ none
  | none ↦
      if uses_timeout w
      then (w.timeout_id >>= λ timeout_id.
          let id : ℕ = elim timeout_id [ none ↦ 1 | some n ↦ n ] in
          some (record s {
            requests =
                s.requests
                ++ permanent_timeout id m.user_id
                  ∷ direct_message m.user_id (muted_text w c none)
                  ∷ [];
          }))
      else none
])

unfoldable pub process_response : World → Command → Session → Option Session
unfolding kind uses_timeout
process_response w c s = Notices.process_response w c (kind (uses_timeout w)) s

unfoldable pub wrapper_function : World → Command → Session → Option Session
unfolding check_permissions process_mutes process_response
wrapper_function w c s = check_permissions w c s >>= λ s'.
    if s'.cancel_operation
    then some s'
    else (process_mutes w c s' >>= λ s''. process_response w c s'')
