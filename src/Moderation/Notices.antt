-- ===== src/Moderation/Notices.antt =====
-- `process_response` of the mute, warn and unmute commands of src/cogs/moderation/wrappers, over the
-- texts that each has of its own. `none` is undefined behaviour or an exception.
pub mod Safety
use reactaio.Prelude.{
  ℕ, Bool, true, false, ◌&&◌, List, [], ◌∷◌, ◌++◌, Option, none, some, if◌then◌else◌, ◌==◌, Text,
  codes, map, length,
}
use reactaio.Helpers.{join, join_with_limit}
use reactaio.Algorithm.{set_difference}
use reactaio.Moderation.World.{
  Member, World, Command, Embed, Session, member_key, message_create, execute_webhook,
}
use reactaio.Moderation.Roles.{◌>>=◌}
use reactaio.Moderation.Session.{
  max_embed_chars, request, with_command, error_embed, log_command_invoke, reply_with, has_error,
  are_all_errors,
}
use reactaio.Moderation.Hybrid.{tell}
use reactaio.Moderation.Bans.{audit_fields}

-- A webhook of the logs: its column, the titles for many members and for one, and the end of the text.
pub record LogColumn : Type 0 where
  pub column : Text
  pub many : Text
  pub one : Text
  pub have_been : Text

-- What the commands differ in. `asks_itself` says that errors go to "botlog", and `needs_row` that the
-- query for the webhooks of the logs throws where the guild has no row of them.
pub record Kind : Type 0 where
  pub name : Text
  pub error_title : Text
  pub asks_itself : Bool
  pub needs_row : Bool
  pub one_title : Text
  pub many_title : Text
  pub has_been : Text
  pub have_been : Text
  pub one_image : Text
  pub many_image : Text
  pub logs : List LogColumn

-- The embeds of the errors, which an interaction gets with the answer.
unfoldable pub respond_errors : World → Command → Kind → Session → Option (List Embed × Session)
respond_errors w c k s =
    let format_split = join_with_limit s.errors max_embed_chars in
    if has_error s
    then if c.interaction
      then some (map (error_embed k.error_title) format_split, s)
      else (tell k.asks_itself w c format_split k.error_title s >>= λ s'. some ([], s'))
    else some ([], s)

unfoldable pub usernames : List Member → Text
usernames members = join (map (λ m. codes "**" ++ (m.username ++ codes "**")) members) (codes ", ")

-- The embed of the answer.
unfoldable pub announcement : Command → Kind → List Member → Embed
unfolding usernames audit_fields
announcement c k members =
    let one = length members == 1 in
    record {
      title = if one then k.one_title else k.many_title;
      description = usernames members ++ (if one then k.has_been else k.have_been);
      image = if one then k.one_image else k.many_image;
      footer = [];
      fields = audit_fields c;
    }

-- The embed for a webhook of the logs. Its thumbnail, an avatar, is left out; but for a list of less
-- than two members the first one is asked for it, and `at(0)` of an empty list throws.
unfoldable pub log_embed : Command → LogColumn → List Member → Option Embed
unfolding usernames audit_fields
log_embed c l members =
    let embed : Text → Embed = λ title. record {
      title = title;
      description = usernames members ++ l.have_been;
      image = [];
      footer = [];
      fields = audit_fields c;
    } in
    elim members [ [] ↦ none | _ ∷ [] ↦ some (embed l.one) | _ ∷ _ ∷ _ ↦ some (embed l.many) ]

unfoldable pub log_all : World → Command → List Member → List LogColumn → Session → Option Session
unfolding log_embed
log_all w c members [] s = some s
log_all w c members (l ∷ logs) s = elim (w.webhooks l.column) [
  | none ↦ log_all w c members logs s
  | some url ↦
      (log_embed c l members >>= λ embed.
      log_all w c members logs (request (execute_webhook url (embed ∷ [])) s))
]

-- The block `if(!are_all_errors())`.
unfoldable pub respond_done :
    World → Command → Kind → List Embed → Session → Option (List Embed × Session)
unfolding announcement log_all
respond_done w c k embeds s =
    if are_all_errors s
    then some (embeds, s)
    else (set_difference member_key w.past_members s.members s.members_with_errors [] >>= λ members.
        with_command s (
          if k.needs_row && w.lacks_webhooks
          then none
          else (log_all w c members k.logs s >>= λ s'.
              some (embeds ++ announcement c k members ∷ [], s'))))

-- The end: the message with all embeds, if they are one, and the log of the command.
unfoldable pub finish : Command → Kind → List Embed → Session → Option Session
finish c k embeds s =
    let hidden = are_all_errors s && has_error s in
    if c.interaction
    then log_command_invoke k.name (reply_with hidden (length embeds) embeds s)
    else with_command s (some (request (message_create embeds) s))

unfoldable pub process_response : World → Command → Kind → Session → Option Session
unfolding respond_errors respond_done finish
process_response w c k s = with_command s (
    respond_errors w c k s >>= λ (embeds, s1).
    respond_done w c k embeds s1 >>= λ (all_embeds, s2). finish c k all_embeds s2)
