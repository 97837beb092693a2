-- ===== src/Moderation/Unban.antt =====
-- src/cogs/moderation/wrappers/unban/unban_wrapper.cpp. `none` is undefined behaviour or an exception.
pub mod Safety
pub mod Checks
use reactaio.Moderation.Policy.{inside_transaction}
use reactaio.Moderation.UserWrapper.{Users, are_all_errors}
use reactaio.Moderation.Bans.{audit_fields}
use reactaio.Moderation.Session.{
  max_embed_chars, request, with_command, error_embed, invoke_error_webhook, log_command_invoke,
  has_error, insert_cases, next_case, reject,
}
use reactaio.Moderation.Checks.{cross}
use reactaio.Moderation.Rows.{Fetched, query, query_one, is_null, as_number, as_text}
use reactaio.Moderation.Roles.{top_role, ◌>>=◌}
use reactaio.Moderation.World.{
  Role, User, World, Command, Embed, Request, Session, Row, Completion, succeeded, failed, user_key,
  edit_response, paginate, execute_webhook, message_create, guild_ban_delete, modcase_insert,
}
use reactaio.Prelude.Result.{Result, ok, throw}
use reactaio.Algorithm.{set_difference, set_intersection}
use reactaio.UniqueVector.{insert, insert_range, erase}
use reactaio.Prelude.{
  ◌+◌, ◌%◌, ◌^◌, Bool, true, false, not, ◌&&◌, List, [], ◌∷◌, ◌++◌, Option, none, some,
  if◌then◌else◌, ◌==◌, ltb, null, Text, codes, map, length,
}
use reactaio.Decimal.{to_string}
use reactaio.Helpers.{join, join_with_limit}

unfoldable pub unban_name : Text
unban_name = codes "Unban"

unfoldable pub error_title : Text
error_title = codes "Error while unbanning user(s): "

unfoldable bot_lacks : Text
bot_lacks =
    cross
    ++ (codes "The bot does not have ban_members permission. Please fix this and try "
        ++ codes "again.")

unfoldable bot_below : Text
bot_below =
    cross
    ++ (codes "Bot top role is below your role. Please move the bot role above the top "
        ++ codes "role")

-- The errors of a bot that may not ban, and of an author below the bot.
unfoldable pub judge : Bool → Bool → Session → Session
unfolding bot_lacks bot_below
judge bot_can author_below s =
    let s1 =
      if bot_can
      then s
      else record s { errors = s.errors ++ bot_lacks ∷ []; cancel_operation = true } in
    if author_below
    then record s1 { errors = s1.errors ++ bot_below ∷ []; cancel_operation = true }
    else s1

-- The null pointer among the users.
abbrev pub no_user : User
no_user = record { address = 0; id = 0; mention = []; username = [] }

-- `hard_bans`: a copy of the cached user of every row.
unfoldable pub copy_users : World → List Text → List Row → List User → Option (List User)
copy_users w columns [] hard_bans = some (erase user_key no_user hard_bans)
copy_users w columns (row ∷ rows) hard_bans = do
  id ← as_number (record { columns = columns; row = row }) (codes "user_id")
  user ← w.find_user id
  hard_bans' ← insert user_key w.past_users (w.copy_user user) hard_bans
  copy_users w columns rows hard_bans'

unfoldable pub find_hard_bans : World → Option (List User)
unfolding copy_users
find_hard_bans w = query w (codes "hardban_get") (to_string w.guild_id ∷ []) >>= λ (columns, rows).
    copy_users w columns rows []

unfoldable pub forbidden_text : User → Text
forbidden_text u =
    codes "User **"
    ++ (u.username
        ++ (codes "** is hard banned by the server owner and can only be unbanned by said "
            ++ codes "individual."))

-- What becomes of users that are hard banned.
unfoldable pub forbid : World → Command → List User → Users → Option Users
unfolding forbidden_text
forbid w c illegal x =
    if not (null illegal) && not c.author.is_guild_owner
    then (insert_range user_key w.past_users illegal x.users_with_errors >>= λ failures.
        some (record x {
          base = record x.base {
            errors = x.base.errors ++ map forbidden_text illegal;
            cancel_operation = true;
          };
          users_with_errors = failures;
        }))
    else some x

-- The block `if(cancel_operation)`: the transaction that has asked for the hard bans is live, and only
-- a message to the webhook for errors begins another.
unfoldable pub reject_inside : World → Command → Session → Option Session
unfolding error_title
reject_inside w c s =
    if c.interaction
    then reject w c error_title s
    else inside_transaction w (reject w c error_title s)

-- `check_permissions`, once the hard bans are known.
unfoldable pub decide : World → Command → List User → Users → Option Users
unfolding judge forbid reject_inside
decide w c hard_bans x = do
  bot ← top_role w w.bot_member
  author ← top_role w c.author
  bot_top ← w.role_at bot
  author_top ← w.role_at author
  illegal ← set_intersection user_key w.past_users x.users hard_bans []
  let judged = judge bot_top.has_ban_members (ltb author_top.position bot_top.position) x.base
  x' ← forbid w c illegal (record x { base = judged })
  if x'.base.cancel_operation
      then (reject_inside w c x'.base >>= λ s. some (record x' { base = s }))
      else some x'

unfoldable pub check_permissions : World → Command → Users → Option Users
unfolding find_hard_bans decide
check_permissions w c x = find_hard_bans w >>= λ hard_bans. decide w c hard_bans x

-- The callback. A null case id is read as a number.
unfoldable pub lambda_callback : World → Completion → User → Users → Option Users
unfolding unban_name
lambda_callback w succeeded u x = with_command x.base (
    w.case_id >>= λ row. row >>= λ last.
    some
      (record x { base = request (modcase_insert ((last + 1) % 2 ^ 64) unban_name u.id) x.base }))
lambda_callback w (failed code reason) u x =
    let text = cross ++ (codes "Error " ++ (to_string code ++ (codes ": " ++ reason))) in
    (insert user_key w.past_users u x.users_with_errors >>= λ failures. some (record x {
      base = record x.base { errors = x.base.errors ++ text ∷ [] };
      users_with_errors = failures;
    }))

unfoldable pub process_unbans : Users → Users
process_unbans x = record x {
  base = record x.base { requests = x.base.requests ++ map (λ u. guild_ban_delete u.id) x.users };
}

-- The `has_error` block of `process_response`.
unfoldable pub respond_errors : World → Command → Users → Option (List Embed × Session)
unfolding error_title
respond_errors w c x =
    let split = join_with_limit x.base.errors max_embed_chars in
    let embeds = map (error_embed error_title) split in
    if has_error x.base
    then if c.interaction
      then if length split == 1 && are_all_errors x
        then some (embeds, request (edit_response true embeds) x.base)
        else if ltb 1 (length split) && are_all_errors x
        then some (embeds, record (request (paginate true embeds) x.base) { moved = true })
        else some (embeds, x.base)
      else (invoke_error_webhook w c x.base >>= λ s. some (embeds, s))
    else some ([], x.base)

unfoldable bold : User → Text
bold u = codes "**" ++ (u.username ++ codes "**")

unfoldable pub announcement : World → Command → List User → Embed
unfolding bold audit_fields
announcement w c unbanned =
    let usernames = join (map bold unbanned) (codes ", ") in
    let one = length unbanned == 1 in
    record {
      title = if one then codes "Unbanned" else codes "Mass unbanned";
      description =
          usernames ++ (if one then codes " has been unbanned." else codes " have been unbanned.");
      image =
          if one
          then codes "https://tenor.com/view/yeet-lion-king-simba-rafiki-throw-gif-16194362"
          else codes
              "https://tenor.com/view/the-simpsons-moe-homer-barney-moes-tavern-gif-17102369";
      footer = codes "We're now at " ++ (w.member_count ++ codes " members.");
      fields = audit_fields c;
    }

unfoldable pub log_embed : Command → Text → List User → Embed
unfolding bold audit_fields
log_embed c whom unbanned = record {
  title = whom ++ (if ltb 1 (length unbanned) then codes "s unbanned: " else codes " unbanned: ");
  description = join (map bold unbanned) (codes ", ") ++ codes " have been unbanned.";
  image = [];
  footer = [];
  fields = audit_fields c;
}

-- A log, if the row has a webhook for it. The avatar of the first user is left out; where it is asked
-- for there must be one.
unfoldable pub log_to : Fetched → Text → Bool → Embed → Session → Option Session
log_to f column has_first embed s = is_null f column >>= λ empty.
    if empty
    then some s
    else (as_text f column >>= λ url.
        if has_first then some (request (execute_webhook url (embed ∷ [])) s) else none)

-- The block `if(!are_all_errors())`.
unfoldable pub respond_unbanned :
    World → Command → Users → List Embed → Session → Option (List Embed × Session)
unfolding announcement log_embed log_to
respond_unbanned w c x embeds s =
    if are_all_errors x
    then some (embeds, s)
    else (set_difference user_key w.past_users x.users x.users_with_errors [] >>= λ unbanned.
        with_command s (
          query_one w (codes "get_unban_log") (to_string w.guild_id ∷ []) >>= λ f.
          let some_one = not (null unbanned) in
          let users_log = log_embed c (codes "User") unbanned in
          (log_to f (codes "member_ban_remove") some_one (log_embed c (codes "Member") unbanned) s
            >>= λ s1. log_to f (codes "modlog") some_one users_log s1 >>= λ s2.
                log_to f (codes "public_modlog") true users_log s2 >>= λ s3.
                some (embeds ++ announcement w c unbanned ∷ [], s3))))

-- The end of `process_response`, for a message that only the author sees or that all see.
unfoldable pub finish : Command → Bool → List Embed → Session → Option Session
unfolding unban_name
finish c hidden embeds s =
    if c.interaction
    then log_command_invoke unban_name (
        if ltb 2 (length embeds)
        then record (request (paginate hidden embeds) s) { moved = true }
        else request (edit_response hidden embeds) s)
    else with_command s (some (request (message_create embeds) s))

unfoldable pub process_response : World → Command → Users → Option Users
unfolding respond_errors respond_unbanned finish
process_response w c x = with_command x.base (
    respond_errors w c x >>= λ (embeds, s1).
    respond_unbanned w c x embeds s1 >>= λ (all_embeds, s2).
    finish c (has_error x.base && are_all_errors x) all_embeds s2 >>= λ s3.
    some (record x { base = s3 }))

unfoldable pub wrapper_function : World → Command → Users → Option Users
unfolding check_permissions process_unbans process_response
wrapper_function w c x = check_permissions w c x >>= λ x'.
    if x'.base.cancel_operation then some x' else process_response w c (process_unbans x')
