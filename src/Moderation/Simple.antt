-- ===== src/Moderation/Simple.antt =====
-- src/cogs/moderation/wrappers/simple_wrapper.h, and what the commands on warnings and on the case log
-- share. `none` is undefined behaviour or an exception.
pub mod Warnings
pub mod Cases
pub mod Commands
pub mod Refusals
pub mod Faults
pub mod Removals
use reactaio.Prelude.{
  Bool, true, false, List, [], ◌∷◌, ◌++◌, Option, some, ltb, if◌then◌else◌, Text, codes, ℕ,
}
use reactaio.Decimal.{to_string}
use reactaio.Helpers.{join_with_limit}
use reactaio.Moderation.World.{
  Role, Member, World, Command, Embed, Session, edit_response, edit_text, paginate_texts,
}
use reactaio.Moderation.Roles.{top_role, ◌>>=◌}
use reactaio.Moderation.Checks.{cross}
use reactaio.Moderation.Session.{max_embed_chars, request, with_command, has_error}

-- `simple_wrapper::are_all_errors`
unfoldable pub are_all_errors : Session → Bool
are_all_errors s = has_error s

-- An error that cancels.
unfoldable pub refuse : Text → Session → Session
refuse error s = record s { errors = s.errors ++ error ∷ []; cancel_operation = true }

-- The top role of the bot.
unfoldable pub bot_top : World → Option Role
bot_top w = top_role w w.bot_member >>= λ address. w.role_at address

-- `check_permissions` of the commands that look at the bot alone.
unfoldable pub check_bot : World → (Role → Bool) → Text → Session → Option Session
unfolding bot_top refuse
check_bot w can lacks s =
    bot_top w >>= λ top. some (if can top then s else refuse (cross ++ lacks) s)

unfoldable pub lacks_moderate : Text
lacks_moderate =
    codes "Bot lacks the appropriate permissions. Please check if the bot's top role has Moderate "
    ++ codes "Members permission."

unfoldable pub lacks_manage_guild : Text
lacks_manage_guild =
    codes "Bot lacks the appropriate permissions. Please check if the bot's top role has Manage "
    ++ codes "Server permission."

unfoldable pub too_high : Member → Text → Text
too_high m doing =
    cross
    ++ (m.mention
        ++ (codes " has a higher role than the bot. Unable to "
            ++ (doing
                ++ (codes " for this member. Please move the bot role above the members and below "
                    ++ codes "your staff roles."))))

-- The tests of the commands on the warnings of a member.
unfoldable pub check_member : World → Text → Member → Session → Option Session
unfolding refuse too_high lacks_moderate
check_member w doing m s = do
  bot ← top_role w w.bot_member
  address ← top_role w m
  top ← w.role_at bot
  member_top ← w.role_at address
  let s' = if top.has_moderate_members then s else refuse (cross ++ lacks_moderate) s
  some (if ltb top.position member_top.position then refuse (too_high m doing) s' else s')

-- The block `if(are_all_errors())`, which ends each `process_response`.
unfoldable pub tell_errors : Command → Session → Session
tell_errors c s = elim (join_with_limit s.errors max_embed_chars) [
  | error ∷ [] ↦ if c.interaction then request (edit_text true error) s else s
  | _ ↦ record (request (paginate_texts true s.errors) s) { moved = true }
]

-- `process_response`, of its block for errors and its answer.
unfoldable pub respond : Command → (Session → Option Session) → Session → Option Session
unfolding are_all_errors tell_errors
respond c answer s = if are_all_errors s then some (tell_errors c s) else with_command s (answer s)

-- `wrapper_function`
unfoldable pub run :
    (Session → Option Session) → (Session → Option Session) → Session → Option Session
run check_permissions process_response s =
    check_permissions s >>= λ s'. if s'.cancel_operation then some s' else process_response s'

-- The two ends of the answers: with embeds, or that there is nothing.
unfoldable pub send : Command → List Embed → Session → Option Session
send c embeds s = some (if c.interaction then request (edit_response true embeds) s else s)

unfoldable pub send_text : Command → Text → Session → Option Session
send_text c text s = some (if c.interaction then request (edit_text false text) s else s)

unfoldable pub guild_footer : World → Text
guild_footer w = codes "Guild id " ++ to_string w.guild_id

unfoldable pub user_footer : ℕ → Text
user_footer id = codes "User id " ++ to_string id
