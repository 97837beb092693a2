-- ===== src/Moderation/Locks.antt =====
-- src/cogs/moderation/wrappers/(un)lock/lock_wrapper.cpp and unlock_wrapper.cpp, which differ in their
-- texts, in the permission that they set and in one line of the callback, and
-- src/cogs/moderation/wrappers/channel_wrapper.h. `none` is undefined behaviour or an exception.
pub mod Answer
pub mod Safety
use reactaio.Prelude.{
  ℕ, ◌+◌, ◌%◌, ◌^◌, Bool, true, false, ◌&&◌, List, [], ◌∷◌, ◌++◌, Option, none, some, null,
  if◌then◌else◌, ◌==◌, Text, codes, map, length,
}
use reactaio.Prelude.Result.{Result, ok, throw}
use reactaio.Decimal.{to_string}
use reactaio.Helpers.{join, join_with_limit}
use reactaio.UniqueVector.{insert, contains}
use reactaio.Algorithm.{set_difference}
use reactaio.Moderation.World.{
  role_key, Channel, channel_key, World, Command, Embed, Request, Session, Completion, succeeded,
  failed, message_create, execute_webhook, modcase_insert, channel_edit_permissions,
}
use reactaio.Moderation.Roles.{top_role, get_permitted_roles, ◌>>=◌}
use reactaio.Moderation.Checks.{cross}
use reactaio.Moderation.Session
use reactaio.Moderation.Session.{
  max_embed_chars, request, with_command, error_embed, invoke_error_webhook, log_command_invoke,
  reply_with, reject, has_error,
}
use reactaio.Moderation.Bans.{audit_fields}

-- The members of a wrapper object; what the base class has is in `base`.
pub record Locks : Type 0 where
  pub base : Session
  pub channels : List Channel
  pub channels_with_errors : List Channel

-- What the two commands differ in.
pub record Kind : Type 0 where
  pub name : Text
  pub bot_lacks : Text
  pub refused_title : Text
  pub error_title : Text
  pub unable : Text
  pub title : Text
  pub done : Text
  pub may_send : Bool
  pub keeps_failures : Bool

unfoldable pub lock : Kind
lock = record {
  name = codes "Lock channel";
  bot_lacks =
      cross
      ++ (codes "Bot lacks the appropriate permissions. Please check if the bot has Manage Roles "
          ++ codes "permission.");
  refused_title = codes "Error while locking channel(s): ";
  error_title = codes "Error while locking channel(s): ";
  unable = codes "Unable to lock channel ";
  title = codes "Locked";
  done = codes "locked";
  may_send = false;
  keeps_failures = true;
}

unfoldable pub unlock : Kind
unlock = record {
  name = codes "Unlock channel";
  bot_lacks =
      cross
      ++ (codes "Bot lacks the appropriate permissions. Please check ifthe bot has Manage Roles "
          ++ codes "permission.");
  refused_title = codes "Error while unlocking channel(s): ";
  error_title = codes "Error while soft unlocking channel(s): ";
  unable = codes "Unable to unlock channel ";
  title = codes "Unlocked";
  done = codes "unlocked";
  may_send = true;
  keeps_failures = false;
}

-- The constructor.
unfoldable pub construct : Command → List Channel → Result Locks
construct c channels = elim (Session.construct c []) [
  | throw e ↦ throw e
  | ok base ↦ ok (record { base = base; channels = channels; channels_with_errors = [] })
]

unfoldable pub are_all_errors : Locks → Bool
are_all_errors l = length l.channels_with_errors == length l.channels

unfoldable refused : Text
refused = cross ++ codes "You do not have permission to run this command."

-- `roles.empty() && ... || ...`: the author may not run the command.
unfoldable pub is_refused : List ℕ → ℕ → Bool → Bool
is_refused roles author can = elim can [
  | true ↦ false
  | false ↦ if null roles then true else if contains role_key roles author then false else true
]

-- The errors of a bot that may not manage roles and of a refused author.
unfoldable pub judge : Kind → Bool → Bool → Session → Session
unfolding refused
judge k bot_can refuses s =
    let s1 =
      if bot_can
      then s
      else record s { errors = s.errors ++ k.bot_lacks ∷ []; cancel_operation = true } in
    if refuses
    then record s1 { errors = s1.errors ++ refused ∷ []; cancel_operation = true }
    else s1

unfoldable pub check_permissions : World → Command → Kind → Session → Option Session
unfolding is_refused judge
check_permissions w c k s = do
  bot ← top_role w w.bot_member
  author ← top_role w c.author
  bot_top ← w.role_at bot
  roles ← get_permitted_roles w k.name
  author_top ← w.role_at author
  let s' = judge k bot_top.has_manage_roles (is_refused roles author author_top.has_manage_roles) s
  if s'.cancel_operation then reject w c k.refused_title s' else some s'

-- The loop of `process_locks`.
unfoldable pub lock_requests : Kind → List Channel → List Request
lock_requests k [] = []
lock_requests k (channel ∷ channels) =
    channel_edit_permissions channel.id k.may_send ∷ lock_requests k channels

-- `process_locks` and `process_unlocks`
unfoldable pub process_locks : World → Kind → Locks → Option Locks
unfolding lock_requests
process_locks w k l = do
  channels ←
      if null l.channels
      then insert channel_key w.past_channels w.current_channel []
      else some l.channels
  some (record l {
    channels = channels;
    base = record l.base { requests = l.base.requests ++ lock_requests k channels };
  })

-- The callback of a channel; that of unlock does not keep the channel that failed.
unfoldable pub lambda_callback : World → Kind → Completion → Channel → Locks → Option Locks
lambda_callback w k succeeded channel l = with_command l.base (
    w.case_id >>= λ row. row >>= λ last.
    some
      (record l { base = request (modcase_insert ((last + 1) % 2 ^ 64) k.name channel.id) l.base }))
lambda_callback w k (failed code reason) channel l =
    let text =
      k.unable
      ++ (channel.mention
          ++ (codes ". Error Code " ++ (to_string code ++ (codes ": " ++ reason)))) in
    let with_errors =
      if k.keeps_failures
      then insert channel_key w.past_channels channel l.channels_with_errors
      else some l.channels_with_errors in
    (with_errors >>= λ failures. some (record l {
      base = record l.base { errors = l.base.errors ++ text ∷ [] };
      channels_with_errors = failures;
    }))

-- The embeds of the errors, which are sent at once and stay in the message.
unfoldable pub respond_errors : World → Command → Kind → Locks → Option (List Embed × Session)
unfolding are_all_errors
respond_errors w c k l =
    let split = join_with_limit l.base.errors max_embed_chars in
    let embeds = map (error_embed k.error_title) split in
    if has_error l.base
    then if c.interaction
      then some (embeds, reply_with (are_all_errors l) (length split) embeds l.base)
      else (invoke_error_webhook w c l.base >>= λ s. some (embeds, s))
    else some ([], l.base)

unfoldable pub mentions : List Channel → Text
mentions channels = join (map (λ a. a.mention) channels) (codes ", ")

-- The embed of the answer, which counts all channels and names those without errors.
unfoldable pub announcement : Command → Kind → List Channel → List Channel → Embed
unfolding mentions audit_fields
announcement c k channels done =
    let one = length channels == 1 in
    record {
      title = k.title;
      description =
          mentions done
          ++ ((if one then codes " has been " else codes " have been ") ++ (k.done ++ codes "."));
      image =
          if one
          then codes "https://media3.giphy.com/media/LOoaJ2lbqmduxOaZpS/giphy.gif"
          else codes "https://i.gifer.com/1Daz.gif";
      footer = [];
      fields = audit_fields c;
    }

unfoldable pub log_embed : Command → Kind → List Channel → Embed
unfolding mentions audit_fields
log_embed c k done = record {
  title =
      codes "Channel"
      ++ ((if length done == 1 then [] else codes "s") ++ (codes " " ++ (k.done ++ codes ": ")));
  description = mentions done ++ (codes " have been " ++ (k.done ++ codes "."));
  image = [];
  footer = [];
  fields = audit_fields c;
}

unfoldable pub log_to : World → Text → Embed → Session → Session
log_to w column embed s = elim (w.webhooks column) [
  | none ↦ s
  | some url ↦ request (execute_webhook url (embed ∷ [])) s
]

-- The block `if(!are_all_errors())`.
unfoldable pub respond_done :
    World → Command → Kind → Locks → List Embed → Session → Option (List Embed × Session)
unfolding are_all_errors announcement log_embed log_to
respond_done w c k l embeds s =
    if are_all_errors l
    then some (embeds, s)
    else (set_difference channel_key w.past_channels l.channels l.channels_with_errors []
        >>= λ done. with_command s (
            let e = log_embed c k done in
            some (
              embeds ++ announcement c k l.channels done ∷ [],
              log_to w (codes "public_modlog") e
                  (log_to w (codes "modlog") e (log_to w (codes "channel_overwrite_update") e s)),
            )))

-- The end. The command that an error paginator has taken keeps a null interaction.
unfoldable pub finish : Command → Text → Bool → List Embed → Session → Option Session
finish c name hidden embeds s = with_command s (
    if c.interaction
    then log_command_invoke name (reply_with hidden (length embeds) embeds s)
    else some (request (message_create embeds) s))

unfoldable pub process_response : World → Command → Kind → Locks → Option Locks
unfolding respond_errors respond_done finish are_all_errors
process_response w c k l = with_command l.base (
    respond_errors w c k l >>= λ (embeds, s1).
    respond_done w c k l embeds s1 >>= λ (all_embeds, s2).
    finish c k.name (c.interaction && (has_error l.base && are_all_errors l)) all_embeds s2
    >>= λ s3. some (record l { base = s3 }))

unfoldable pub wrapper_function : World → Command → Kind → Locks → Option Locks
unfolding check_permissions process_locks process_response
wrapper_function w c k l = check_permissions w c k l.base >>= λ s.
    let l' = record l { base = s } in
    if s.cancel_operation
    then some l'
    else (process_locks w k l' >>= λ l''. process_response w c k l'')
