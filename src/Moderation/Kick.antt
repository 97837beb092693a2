-- ===== src/Moderation/Kick.antt =====
-- src/cogs/moderation/wrappers/kick/kick_wrapper.cpp
pub mod Safety
pub mod Cases
pub mod Granted
pub mod Lifecycle
use reactaio.Prelude.{
  ℕ, suc, ◌+◌, Bool, true, false, not, ◌&&◌, List, [], ◌∷◌, ◌++◌, Option, none, some, if◌then◌else◌,
  ◌==◌, ltb, null, Text, codes, map, length,
}
use reactaio.Helpers.{join, join_with_limit}
use reactaio.Decimal.{to_string}
use reactaio.UniqueVector.{insert}
use reactaio.Algorithm.{set_difference, set_symmetric_difference}
use reactaio.Moderation.World.{
  Role, Member, World, Command, Embed, Request, Session, Completion, succeeded, failed, member_key,
  execute_webhook, edit_response, message_create, direct_message, guild_member_kick, paginate,
}
use reactaio.Moderation.Roles.{◌>>=◌}
use reactaio.Moderation.Checks.{cross, command_texts}
use reactaio.Moderation.Policy
use reactaio.Moderation.Policy.{Policy}
use reactaio.Moderation.Session.{
  max_embed_chars, request, with_command, error_embed, invoke_error_webhook, log_command_invoke,
  log_modcase, are_all_errors, has_error,
}

unfoldable pub kick_name : Text
kick_name = codes "Kick"

unfoldable pub error_title : Text
error_title = codes "Error while kicking member(s): "

unfoldable pub policy : Policy
unfolding kick_name error_title
policy = record {
  texts = command_texts (codes "kick") (codes "kicking");
  name = kick_name;
  bot_can = λ r. r.has_kick_members;
  author_can = λ r. r.has_kick_members;
  bot_lacks =
      cross
      ++ (codes "Bot lacks the appropriate permissions. Please check ifthe bot has Kick Members "
          ++ codes "permission.");
  refused = cross ++ codes "You do not have permission to run this command.";
  title = error_title;
}

unfoldable pub check_permissions : World → Command → Session → Option Session
check_permissions w c s = Policy.check_permissions w c policy s

unfoldable dm_text : Command → Member → Text
dm_text c m =
    codes "You have been kicked from "
    ++ (c.guild_name
        ++ (codes " by " ++ (m.username ++ (codes ". Reason: " ++ (c.reason ++ codes ".")))))

-- `process_kicks`: the requests for each member, in order.
unfoldable pub kick_requests : Command → List Member → List Request
unfolding dm_text
kick_requests c [] = []
kick_requests c (m ∷ ms) =
    if c.interaction
    then direct_message m.user_id (dm_text c m) ∷ guild_member_kick m.user_id ∷ kick_requests c ms
    else guild_member_kick m.user_id ∷ kick_requests c ms

unfoldable pub process_kicks : Command → Session → Session
unfolding kick_requests
process_kicks c s = record s { requests = s.requests ++ kick_requests c s.members }

unfoldable failure_text : Member → ℕ → Text → Text
failure_text m code reason =
    cross
    ++ (codes "Unable to kick user **"
        ++ (m.username
            ++ (codes "**. Error code "
                ++ (to_string code ++ (codes ": " ++ (reason ++ codes "."))))))

-- `lambda_callback`, when the kick of `m` has ended.
unfoldable pub lambda_callback : World → Completion → Member → Session → Option Session
unfolding failure_text
lambda_callback w succeeded m s = log_modcase w kick_name s
lambda_callback w (failed code reason) m s =
    insert member_key w.past_members m s.members_with_errors >>= λ with_errors. some (record s {
      errors = s.errors ++ failure_text m code reason ∷ [];
      members_with_errors = with_errors;
    })

-- The `has_error` block of `process_response`: the embeds of the errors, and what is sent at once.
unfoldable pub respond_errors : World → Command → Session → Option (List Embed × Session)
respond_errors w c s =
    let split = join_with_limit s.errors max_embed_chars in
    let embeds = map (error_embed error_title) split in
    let many = ltb 1 (length split) in
    if has_error s
    then if c.interaction
      then if are_all_errors s && length split == 1
        then some (embeds, request (edit_response true embeds) s)
        else if are_all_errors s && many
        then some (embeds, record (request (paginate true embeds) s) { moved = true })
        else some (embeds, s)
      else (invoke_error_webhook w c s >>= λ s'. some (embeds, s'))
    else some ([], s)

unfoldable bold : Member → Text
bold m = codes "**" ++ (m.username ++ codes "**")

unfoldable audit_fields : Command → List (Text × Text)
audit_fields c = (codes "Moderator: ", c.author.mention) ∷ (codes "Reason: ", c.reason) ∷ []

-- The embed of the answer, for the members that have been kicked.
unfoldable pub kicked_embed : World → Command → List Member → Embed
unfolding bold audit_fields
kicked_embed w c kicked =
    let usernames = join (map bold kicked) (codes ", ") in
    let one = length kicked == 1 in
    record {
      title = if one then codes "Kicked" else codes "Mass kicked";
      description =
          usernames ++ (if one then codes " has been kicked." else codes " have been kicked.");
      image =
          if one
          then codes "https://tenor.com/view/yeet-lion-king-simba-rafiki-throw-gif-16194362"
          else codes
              "https://tenor.com/view/the-simpsons-moe-homer-barney-moes-tavern-gif-17102369";
      footer = codes "We're now at " ++ (w.member_count ++ codes " members.");
      fields = audit_fields c;
    }

-- The embed that goes to the log webhooks. Its thumbnail, the avatar of the first of the kicked
-- members, is left out.
unfoldable pub log_embed : Command → List Member → Embed
unfolding bold audit_fields
log_embed c kicked = record {
  title = if ltb 1 (length kicked) then codes "Members kicked: " else codes "Member kicked: ";
  description = join (map bold kicked) (codes ", ") ++ codes " have been kicked.";
  image = [];
  footer = [];
  fields = audit_fields c;
}

unfoldable pub log_to : World → Text → Embed → Session → Session
log_to w column embed s = elim (w.webhooks column) [
  | none ↦ s
  | some url ↦ request (execute_webhook url (embed ∷ [])) s
]

-- The `!are_all_errors` block: the kicked members, their embed, and the logs, whose query throws where
-- the guild has no row of webhooks.
unfoldable pub respond_kicked :
    World → Command → List Embed → Session → Option (List Embed × Session)
unfolding kicked_embed log_embed log_to
respond_kicked w c embeds s =
    if are_all_errors s
    then some (embeds, s)
    else (set_difference member_key w.past_members s.members s.members_with_errors [] >>= λ kicked.
        set_symmetric_difference member_key w.past_members s.members s.members_with_errors kicked
        >>= λ kicked. with_command s (
            let embed = log_embed c kicked in
            if w.lacks_webhooks
            then none
            else some (
              embeds ++ kicked_embed w c kicked ∷ [],
              log_to w (codes "public_modlog") embed
                  (log_to w (codes "modlog") embed (log_to w (codes "member_kick") embed s)),
            )))

-- The end of `process_response`.
unfoldable pub respond : Command → List Embed → Session → Option Session
respond c embeds s =
    if c.interaction
    then log_command_invoke kick_name (
        if ltb 2 (length embeds)
        then record (request (paginate (are_all_errors s && has_error s) embeds) s) { moved = true }
        else request (edit_response (are_all_errors s && has_error s) embeds) s)
    else with_command s (some (request (message_create embeds) s))

unfoldable pub process_response : World → Command → Session → Option Session
unfolding respond_errors respond_kicked respond
process_response w c s = with_command s (
    respond_errors w c s >>= λ (embeds, s1).
    respond_kicked w c embeds s1 >>= λ (all_embeds, s2). respond c all_embeds s2)

-- `wrapper_function`
unfoldable pub wrapper_function : World → Command → Session → Option Session
unfolding check_permissions process_kicks process_response
wrapper_function w c s = check_permissions w c s >>= λ s'.
    if s'.cancel_operation then some s' else process_response w c (process_kicks c s')
