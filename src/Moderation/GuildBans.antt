-- ===== src/Moderation/GuildBans.antt =====
-- src/cogs/moderation/wrappers/bans/guild_bans_wrapper.cpp and recursive_wrapper.h. `none` is undefined
-- behaviour or an exception.
pub mod Pages
pub mod Answer
use reactaio.Prelude.{
  ℕ, zero, suc, ◌+◌, Bool, true, false, not, ◌&&◌, ◌||◌, List, [], ◌∷◌, ◌++◌, Option, none, some,
  if◌then◌else◌, ◌==◌, ltb, null, Text, codes, map, length,
}
use reactaio.Decimal.{to_string}
use reactaio.Helpers.{join_with_limit}
use reactaio.UniqueVector.{contains, insert}
use reactaio.Moderation.World.{
  Role, World, Command, Embed, Request, Session, Completion, succeeded, failed, role_key,
  edit_response, paginate, guild_get_bans, user_get_cached,
}
use reactaio.Moderation.Roles.{top_role, get_permitted_roles, ◌>>=◌}
use reactaio.Moderation.Checks.{cross}
use reactaio.Moderation.Session.{
  max_embed_chars, request, with_command, error_embed, invoke_error_webhook, log_command_invoke,
  has_error, reject, reply_with,
}

-- `dpp::ban`, at the address that the page has it at.
pub record Ban : Type 0 where
  pub address : ℕ
  pub user_id : ℕ
  pub reason : Text

abbrev pub ban_key : Ban → ℕ
ban_key b = b.address

-- The members of a wrapper object; what the base class has is in `base`.
pub record GuildBans : Type 0 where
  pub base : Session
  pub bans : List Ban
  pub banned_usernames : List Text

-- `recursive_wrapper::are_all_errors`
unfoldable pub are_all_errors : GuildBans → Bool
are_all_errors g = has_error g.base

unfoldable pub view_ban_list : Text
view_ban_list = codes "View guild ban list"

-- `max_guild_ban_fetch`
abbrev pub max_guild_ban_fetch : ℕ
max_guild_ban_fetch = 1000

unfoldable pub bot_lacks : Text
bot_lacks =
    cross
    ++ (codes "Bot doesn't have the appropriate permissions. Please make sure the Ban Members "
        ++ codes "permission is enabled.")

unfoldable refused : Text
refused = cross ++ codes "You do not have permission to run this command."

-- The flag of the author decides; a list of permitted roles only adds the roles in it.
unfoldable pub is_refused : List ℕ → ℕ → Bool → Bool
is_refused roles author author_can =
    (null roles && not author_can)
    || (not (null roles) && (not author_can && not (contains role_key roles author)))

-- The errors of a bot and of an author that may not see the list, over the text for the bot.
unfoldable pub judge : Text → Bool → Bool → Session → Session
unfolding refused
judge lacks bot_can not_permitted s =
    let s1 =
      if bot_can
      then s
      else record s { errors = s.errors ++ lacks ∷ []; cancel_operation = true } in
    if not_permitted
    then record s1 { errors = s1.errors ++ refused ∷ []; cancel_operation = true }
    else s1

unfoldable pub check_permissions : World → Command → Session → Option Session
unfolding is_refused judge view_ban_list bot_lacks
check_permissions w c s = do
  bot ← top_role w w.bot_member
  author ← top_role w c.author
  bot_top ← w.role_at bot
  roles ← get_permitted_roles w view_ban_list
  author_top ← w.role_at author
  let s' =
      judge bot_lacks bot_top.has_ban_members (is_refused roles author author_top.has_ban_members) s
  if s'.cancel_operation then reject w c (codes "Error while banning member(s): ") s' else some s'

-- How a call for a page of bans ends.
pub data Fetch : Type 0 where
  got : List Ban → Fetch
  no_page : ℕ → Text → Fetch

-- The loop over a page, with the highest id so far.
unfoldable pub collect_page :
    (List Ban → Option Ban) → List Ban → ℕ → List Ban → Option (ℕ × List Ban)
collect_page past_end [] new_after bans = some (new_after, bans)
collect_page past_end (b ∷ page) new_after bans = do
  bans' ← insert ban_key past_end b bans
  collect_page past_end page (if ltb new_after b.user_id then b.user_id else new_after) bans'

-- The callback of `recursive_call`: with the point from which it asks for the next page, if it does.
unfoldable pub callback :
    (List Ban → Option Ban) → ℕ → Fetch → GuildBans → Option (Option ℕ × GuildBans)
unfolding collect_page
callback past_end after (no_page code reason) g =
    let text = cross ++ (codes "Error " ++ (to_string code ++ (codes ": " ++ reason))) in
    some (none, record g { base = record g.base { errors = g.base.errors ++ text ∷ [] } })
callback past_end after (got page) g = collect_page past_end page after g.bans >>= λ (last, bans).
    let g' = record g { bans = bans } in
    some (if ltb (length page) max_guild_ban_fetch then none else some last, g')

-- `recursive_call` and the calls that its callbacks make, for so many pages at most. The answers come
-- from `fetch`.
unfoldable pub recursive_call :
    (List Ban → Option Ban) → (ℕ → Fetch) → ℕ → ℕ → GuildBans → Option GuildBans
unfolding callback
recursive_call past_end fetch zero after g = none
recursive_call past_end fetch (suc fuel) after g =
    callback past_end after (fetch after) g >>= λ (next, g'). elim next [
      | none ↦ some g'
      | some last ↦ recursive_call past_end fetch fuel last g'
    ]

unfoldable pub usernames_text : Text → Text → Text
usernames_text username reason = codes "User **" ++ (username ++ (codes "** Reason: " ++ reason))

-- The end of `user_get_cached`, with the name of the user.
unfoldable pub user_callback : Ban → Completion → Text → GuildBans → GuildBans
unfolding usernames_text
user_callback b succeeded username g = record g {
  banned_usernames = g.banned_usernames ++ usernames_text username b.reason ∷ [];
}
user_callback b (failed code reason) username g = g

unfoldable pub error_title : Text
error_title = codes "Error while fetching guild bans: "

-- `process_response`. The calls for the users have not ended when the names are put into embeds.
unfoldable pub process_response : World → Command → GuildBans → Option GuildBans
unfolding error_title view_ban_list
process_response w c g =
    let answered = λ (s : Session). record g { base = s } in
    if has_error g.base
    then (let split = join_with_limit g.base.errors max_embed_chars in
        let embeds = map (error_embed error_title) split in
        if c.interaction
        then some (answered (reply_with (are_all_errors g) (length split) embeds g.base))
        else (invoke_error_webhook w c g.base >>= λ s. some (answered s)))
    else with_command g.base (
        let split = join_with_limit g.banned_usernames max_embed_chars in
        let embeds = map (error_embed error_title) split in
        let asked = map (λ b. user_get_cached b.user_id) g.bans in
        let s = record g.base { requests = g.base.requests ++ asked } in
        if c.interaction
        then (log_command_invoke view_ban_list s >>= λ s'.
            some (answered (reply_with true (length split) embeds s')))
        else (invoke_error_webhook w c s >>= λ s'. some (answered s')))

-- `wrapper_function`: the answer does not wait for the first page.
unfoldable pub wrapper_function : World → Command → GuildBans → Option GuildBans
unfolding check_permissions process_response
wrapper_function w c g = check_permissions w c g.base >>= λ s.
    if s.cancel_operation
    then some (record g { base = s })
    else process_response w c (record g { base = request (guild_get_bans 1) s })
