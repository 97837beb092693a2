-- ===== src/Moderation/Bans.antt =====
-- `process_response` of the ban, hard ban and soft ban commands of src/cogs/moderation/wrappers, over
-- the texts that each has of its own. `none` is undefined behaviour or an exception.
pub mod Safety
pub mod Faults
pub mod Ends
pub mod Wrapper
use reactaio.Prelude.{
  ℕ, Bool, true, false, not, ◌&&◌, List, [], ◌∷◌, ◌++◌, Option, none, some, if◌then◌else◌, ◌==◌,
  ltb, Text, codes, map, length,
}
use reactaio.Duration.{Duration, to_seconds}
use reactaio.Helpers.{join, join_with_limit}
use reactaio.Algorithm.{set_difference}
use reactaio.Moderation.World.{
  User, World, Command, Embed, Session, user_key, edit_response, paginate, message_create,
  execute_webhook,
}
use reactaio.Moderation.Roles.{◌>>=◌}
use reactaio.Moderation.Session.{
  max_embed_chars, request, with_command, error_embed, log_command_invoke, reply_with, has_error,
}
use reactaio.Moderation.Hybrid.{Hybrid, are_all_errors, tell, collect, report_invalid}

-- A webhook of the logs: its column, and the titles for many users and for one.
pub record LogColumn : Type 0 where
  pub column : Text
  pub many : Text
  pub one : Text

-- What the commands differ in. `asks_itself` says that errors go to "botlog"; the flags `until` say
-- that the embed names the end of a temporary ban.
pub record Kind : Type 0 where
  pub name : Text
  pub error_title : Text
  pub asks_itself : Bool
  pub title : Text
  pub has_been : Text
  pub have_been : Text
  pub until : Bool
  pub logs_until : Bool
  pub logs : List LogColumn

-- The embeds of the errors, which are sent at once.
unfoldable pub respond_errors : World → Command → Kind → Hybrid → Option (List Embed × Hybrid)
respond_errors w c k h =
    let format_split = join_with_limit h.base.errors max_embed_chars in
    let embeds = map (error_embed k.error_title) format_split in
    if has_error h.base
    then if c.interaction
      then some (
        embeds,
        record h { base = reply_with (are_all_errors h) (length format_split) embeds h.base },
      )
      else (tell k.asks_itself w c format_split k.error_title h.base >>= λ s.
          some (embeds, record h { base = s }))
    else some ([], h)

unfoldable pub ending : World → Bool → Option Duration → Text
ending w says none = codes "."
ending w true (some d) = codes " until " ++ (w.relative_time (to_seconds d) ++ codes ".")
ending w false (some d) = codes "."

unfoldable pub usernames : List User → Text
usernames users = join (map (λ u. codes "**" ++ (u.username ++ codes "**")) users) (codes ", ")

unfoldable pub audit_fields : Command → List (Text × Text)
audit_fields c = (codes "Moderator: ", c.author.mention) ∷ (codes "Reason: ", c.reason) ∷ []

-- The embed of the answer.
unfoldable pub announcement : World → Command → Kind → Option Duration → List User → Embed
unfolding ending usernames audit_fields
announcement w c k duration users =
    let one = length users == 1 in
    record {
      title = k.title;
      description =
          usernames users
          ++ ((if one then k.has_been else k.have_been) ++ ending w k.until duration);
      image =
          if one
          then codes "https://media3.giphy.com/media/LOoaJ2lbqmduxOaZpS/giphy.gif"
          else codes "https://i.gifer.com/1Daz.gif";
      footer = [];
      fields = audit_fields c;
    }

-- The embed for a webhook of the logs. Its thumbnail, an avatar, is left out; but for a list of less
-- than two users the first one is asked for it, and `at(0)` of an empty list throws.
unfoldable pub log_embed :
    World → Command → Kind → Option Duration → LogColumn → List User → Option Embed
unfolding ending usernames audit_fields
log_embed w c k duration l users =
    let embed : Text → Embed = λ title. record {
      title = title;
      description = usernames users ++ (k.have_been ++ ending w k.logs_until duration);
      image = [];
      footer = [];
      fields = audit_fields c;
    } in
    elim users [ [] ↦ none | _ ∷ [] ↦ some (embed l.one) | _ ∷ _ ∷ _ ↦ some (embed l.many) ]

unfoldable pub log_all :
    World → Command → Kind → List User → List LogColumn → Session → Option Session
unfolding log_embed
log_all w c k users [] s = some s
log_all w c k users (l ∷ logs) s = elim (w.webhooks l.column) [
  | none ↦ log_all w c k users logs s
  | some url ↦
      (log_embed w c k s.duration l users >>= λ embed.
      log_all w c k users logs (request (execute_webhook url (embed ∷ [])) s))
]

-- The block `if(!are_all_errors())`.
unfoldable pub respond_banned :
    World → Command → Kind → List Embed → Hybrid → Option (List Embed × Hybrid)
unfolding announcement log_all
respond_banned w c k embeds h =
    if are_all_errors h
    then some (embeds, h)
    else (set_difference user_key w.past_users h.users h.users_with_errors [] >>= λ users.
        with_command h.base (
          log_all w c k users k.logs h.base >>= λ s.
          some (embeds ++ announcement w c k h.base.duration users ∷ [], record h { base = s })))

-- The end: the message with all embeds, if they are one, and the log of the command.
unfoldable pub send_answer : Command → Kind → List Embed → Hybrid → Option Session
send_answer c k embeds h =
    let hidden = are_all_errors h && has_error h.base in
    if c.interaction
    then log_command_invoke k.name (reply_with hidden (length embeds) embeds h.base)
    else with_command h.base (some (request (message_create embeds) h.base))

unfoldable pub finish : Command → Kind → List Embed → Hybrid → Option Hybrid
unfolding send_answer
finish c k embeds h = send_answer c k embeds h >>= λ s. some (record h { base = s })

unfoldable pub process_response : World → Command → Kind → Hybrid → Option Hybrid
unfolding respond_errors respond_banned finish
process_response w c k h = with_command h.base (
    respond_errors w c k h >>= λ (embeds, h1).
    respond_banned w c k embeds h1 >>= λ (all_embeds, h2). finish c k all_embeds h2)

-- `wrapper_function`, which the three commands have in common but for the checks, the requests and
-- the answer.
module _ (w : World) (c : Command) (asks_itself : Bool) (invalid_title : Text)
    (check_permissions : List ℕ → Session → Option Session)
    (process respond : Hybrid → Option Hybrid) where
  unfoldable pub run_checked : Hybrid → Option Hybrid
  run_checked h = check_permissions (map (λ u. u.address) h.users) h.base >>= λ s.
      let h' : Hybrid = record h { base = s } in
      if s.cancel_operation then some h' else (process h' >>= λ h''. respond h'')

  unfoldable pub wrapper : Hybrid → Option Hybrid
  unfolding run_checked
  wrapper h = with_command h.base (
      collect w h.snowflakes h >>= λ (invalid_user, h').
      if invalid_user then report_invalid asks_itself w c invalid_title h' else run_checked h')
