-- ===== src/Moderation/Lockdown.antt =====
-- src/cogs/moderation/wrappers/lockdown/lockdown_wrapper.cpp and remove_lockdown.cpp, which differ in
-- their texts and in the permission that they set. `none` is undefined behaviour or an exception.
pub mod Safety
use reactaio.Prelude.{
  ℕ, ◌+◌, ◌%◌, ◌^◌, Bool, true, false, ◌&&◌, List, [], ◌∷◌, ◌++◌, Option, none, some, null,
  if◌then◌else◌, ◌==◌, Text, codes, map, length,
}
use reactaio.Decimal.{to_string}
use reactaio.Helpers.{join, join_with_limit}
use reactaio.UniqueVector.{insert}
use reactaio.Algorithm.{set_difference}
use reactaio.Moderation.World.{
  Channel, channel_key, role_key, World, Command, Embed, Request, Session, Completion, succeeded,
  failed, Value, paginate_texts, exec_statement, channel_edit_permissions,
}
use reactaio.Moderation.Roles.{top_role, ◌>>=◌}
use reactaio.Moderation.Rows.{Fetched, query_one, is_null}
use reactaio.Moderation.Checks.{cross}
use reactaio.Moderation.Session.{
  max_embed_chars, request, with_command, error_embed, send_errors, reply_with, has_error,
}
use reactaio.Moderation.Bans.{audit_fields}
use reactaio.Moderation.Locks.{Locks, are_all_errors, mentions, log_to, finish}

-- What the two commands differ in.
pub record Kind : Type 0 where
  pub name : Text
  pub error_title : Text
  pub description : Text
  pub log_title : Text
  pub log_end : Text
  pub log_text : Text
  pub may_send : Bool

unfoldable pub start : Kind
start = record {
  name = codes "Lockdown start";
  error_title = codes "Error while locking down the server: ";
  description = codes "Server has been locked down. Channels: ";
  log_title = codes "Server locked down. Channel";
  log_end = codes " have been locked.";
  log_text = codes "Server locked down. Affected channels: ";
  may_send = false;
}

unfoldable pub end : Kind
end = record {
  name = codes "Lockdown end";
  error_title = codes "Error while removing the server lockdown: ";
  description = codes "Server's lockdown has been removed. Channels: ";
  log_title = codes "Server lockdown removed. Channel";
  log_end = codes " have been unlocked.";
  log_text = codes "Server lockdown removed. Affected channels: ";
  may_send = true;
}

unfoldable pub lockdowns_get : World → Option Fetched
lockdowns_get w = query_one w (codes "lockdowns_get") (to_string w.guild_id ∷ [])

unfoldable bot_lacks : Text
bot_lacks =
    cross
    ++ (codes "Bot lacks the appropriate permissions. Please check if the bot has Manage Roles "
        ++ codes "permission.")

unfoldable no_channels : Text
no_channels =
    codes "No channels set for the lockdown, please set the lockdown channels in the bot config."

-- The errors of a bot that may not manage roles and of a guild without channels.
unfoldable pub judge : Bool → Bool → Session → Session
unfolding bot_lacks no_channels
judge bot_can empty s =
    let s1 =
      if bot_can
      then s
      else record s { errors = s.errors ++ bot_lacks ∷ []; cancel_operation = true } in
    if empty
    then record s1 { errors = s1.errors ++ no_channels ∷ []; cancel_operation = true }
    else s1

-- The errors of the checks are shown by a paginator, however many they are.
unfoldable pub show_errors : Session → Session
show_errors s =
    let messages = join_with_limit s.errors max_embed_chars in
    if s.cancel_operation
    then record (request (paginate_texts false messages) s) { moved = true }
    else s

unfoldable pub check_permissions : World → Command → Session → Option Session
unfolding judge lockdowns_get show_errors
check_permissions w c s = do
  bot ← top_role w w.bot_member
  author ← top_role w c.author
  bot_top ← w.role_at bot
  result ← lockdowns_get w
  empty ← is_null result (codes "lockdown_channels")
  some (show_errors (judge bot_top.has_manage_roles empty s))

unfoldable pub lambda_callback : World → Completion → Channel → Locks → Option Locks
lambda_callback w succeeded channel l = some l
lambda_callback w (failed code reason) channel l =
    let text = codes "Error code " ++ (to_string code ++ (codes ": " ++ (reason ++ codes "."))) in
    (insert channel_key w.past_channels channel l.channels_with_errors >>= λ failures.
    some (record l {
      base = record l.base { errors = l.base.errors ++ text ∷ [] };
      channels_with_errors = failures;
    }))

-- The null pointer among the channels.
abbrev pub no_channel : Channel
no_channel = record { address = 0; id = 0; mention = [] }

-- `transform(channel_ids, channels, …)`, with the ids that are not found.
unfoldable pub find_channels :
    World → List ℕ → List Channel → List ℕ → Option (List Channel × List ℕ)
find_channels w [] channels not_found = some (channels, not_found)
find_channels w (id ∷ ids) channels not_found = elim (w.find_channel id) [
  | none ↦
      (insert role_key w.past_ids id not_found >>= λ not_found'.
      insert channel_key w.past_channels no_channel channels >>= λ channels'.
      find_channels w ids channels' not_found')
  | some a ↦
      (insert channel_key w.past_channels (w.copy_channel a) channels >>= λ channels'.
      find_channels w ids channels' not_found)
]

unfoldable pub missing_text : Text → ℕ → Text
missing_text ending id =
    codes "Cannot find channel with id "
    ++ (to_string id ++ (codes ". Possibly a deleted " ++ ending))

-- The loop over the channels, which follows each pointer.
unfoldable pub edit_requests : Kind → List Channel → Option (List Request)
edit_requests k [] = some []
edit_requests k (a ∷ channels) = do
  rest ← edit_requests k channels
  if a.address == 0 then none else some (channel_edit_permissions a.id k.may_send ∷ rest)

-- `channels.size() == 1 && channels.front() == nullptr`
unfoldable pub is_only_null : List Channel → Bool
is_only_null (a ∷ []) = a.address == 0
is_only_null _ = false

-- `process_lockdown` and `process_lockdown_removal`. `parse_psql_array`, which no file declares, reads
-- the ids from the field.
unfoldable pub process_lockdown : World → Kind → (Option Value → List ℕ) → Locks → Option Locks
unfolding lockdowns_get is_only_null find_channels missing_text edit_requests
process_lockdown w k parse_psql_array l = with_command l.base (
    lockdowns_get w >>= λ result. is_null result (codes "lockdown_channels") >>= λ empty.
    let ids = parse_psql_array (result.row (codes "lockdown_channels")) in
    (find_channels w ids l.channels [] >>= λ (channels, not_found).
    let missing = λ (ending : Text). map (missing_text ending) in
    if is_only_null channels
    then some (record l {
      base = record l.base { errors = l.base.errors ++ missing (codes "channnel?") ids };
      channels = channels;
      channels_with_errors = channels;
    })
    else (edit_requests k channels >>= λ requests. some (record l {
      base = record l.base {
        errors = l.base.errors ++ missing (codes "channel?") not_found;
        requests = l.base.requests ++ requests;
      };
      channels = channels;
    }))))

-- The embeds of the errors, which are sent at once and stay in the message.
unfoldable pub respond_errors : World → Command → Kind → Locks → Option (List Embed × Session)
respond_errors w c k l =
    let split = join_with_limit l.base.errors max_embed_chars in
    let embeds = map (error_embed k.error_title) split in
    if has_error l.base
    then if c.interaction
      then some (embeds, reply_with (are_all_errors l) (length split) embeds l.base)
      else (send_errors w c embeds l.base >>= λ s. some (embeds, s))
    else some ([], l.base)

unfoldable pub announcement : Command → Kind → List Channel → Embed
unfolding mentions audit_fields
announcement c k locked = record {
  title = codes "Locked";
  description = k.description ++ mentions locked;
  image = [];
  footer = [];
  fields = audit_fields c;
}

unfoldable pub log_embed : Command → Kind → List Channel → Text → Embed
unfolding audit_fields
log_embed c k locked description = record {
  title = k.log_title ++ ((if length locked == 1 then [] else codes "s") ++ codes " affected: ");
  description = description;
  image = [];
  footer = [];
  fields = audit_fields c;
}

-- The block `if(!are_all_errors())`. The channels are taken away from themselves, and the webhooks are
-- asked for in a transaction that has been committed.
unfoldable pub respond_done :
    World → Command → Kind → Locks → List Embed → Session → Option (List Embed × Session)
unfolding announcement log_embed mentions log_to
respond_done w c k l embeds s =
    if are_all_errors l
    then some (embeds, s)
    else (set_difference channel_key w.past_channels l.channels l.channels [] >>= λ locked.
        with_command s (
          w.case_id >>= λ row. row >>= λ last.
          let ids = join (map (λ a. to_string a.id) locked) (codes ", ") in
          let s1 =
            request
              (exec_statement (codes "modcase_insert") (
                to_string w.guild_id
                ∷ to_string ((last + 1) % 2 ^ 64)
                ∷ k.name
                ∷ to_string c.author.user_id
                ∷ ids
                ∷ c.reason
                ∷ []))
              s in
          let e1 = log_embed c k locked (mentions locked ++ k.log_end) in
          let e2 = log_embed c k locked (k.log_text ++ (mentions locked ++ codes ".")) in
          if w.executes_after_commit
          then some (
            embeds ++ announcement c k locked ∷ [],
            log_to w (codes "public_modlog") e2
                (log_to w (codes "modlog") e2 (log_to w (codes "channel_overwrite_update") e1 s1)),
          )
          else none))

unfoldable pub process_response : World → Command → Kind → Locks → Option Locks
unfolding respond_errors respond_done
process_response w c k l = with_command l.base (
    respond_errors w c k l >>= λ (embeds, s1).
    respond_done w c k l embeds s1 >>= λ (all_embeds, s2).
    finish c k.name (c.interaction && (has_error l.base && are_all_errors l)) all_embeds s2
    >>= λ s3. some (record l { base = s3 }))

unfoldable pub wrapper_function :
    World → Command → Kind → (Option Value → List ℕ) → Locks → Option Locks
unfolding check_permissions process_lockdown process_response
wrapper_function w c k parse_psql_array l = check_permissions w c l.base >>= λ s.
    let l' = record l { base = s } in
    if s.cancel_operation
    then some l'
    else (process_lockdown w k parse_psql_array l' >>= λ l''. process_response w c k l'')
