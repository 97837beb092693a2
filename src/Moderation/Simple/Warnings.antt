-- ===== src/Moderation/Simple/Warnings.antt =====
-- src/cogs/moderation/wrappers/warning management: the commands that show and remove warnings.
use reactaio.Prelude.{
  true, List, [], ◌∷◌, ◌++◌, Option, none, some, ltb, if◌then◌else◌, Text, codes, ℕ, length,
}
use reactaio.Decimal.{to_string}
use reactaio.Moderation.World.{
  Member, World, Command, Embed, Session, Row, paginate, exec_statement,
}
use reactaio.Moderation.Roles.{top_role, ◌>>=◌}
use reactaio.Moderation.Checks.{cross}
use reactaio.Moderation.Session.{request}
use reactaio.Moderation.Rows.{Fetched, query, query_one, is_null, as_number, as_text}
use reactaio.Moderation.Simple.{
  refuse, bot_top, check_bot, lacks_manage_guild, too_high, check_member, respond, run, send,
  send_text, guild_footer, user_footer,
}

-- `bot_max_embeds`
abbrev pub max_embeds : ℕ
max_embeds = 10

unfoldable pub plain : Text → Text → List (Text × Text) → Embed
plain title footer fields = record {
  title = title;
  description = [];
  image = [];
  footer = footer;
  fields = fields;
}

-- The statements that remove warnings return one column of the rows that they have removed. With a
-- null there, the answer is that there are none.
unfoldable pub remove :
    World → Command → Text → List Text → Text → Embed → Text → Session → Option Session
unfolding send send_text
remove w c name parameters column embed nothing s = do
  result ← query_one w name parameters
  empty ← is_null result column
  let s' = request (exec_statement name parameters) s
  if empty
      then send_text c nothing s'
      else if c.interaction
      then send c (embed ∷ []) s'
      else send_text c nothing s'

module _ (w : World) (c : Command) where
  -- clear_guild_warnings.cpp
  unfoldable pub clear_guild_warnings_answer : Session → Option Session
  unfolding remove plain guild_footer
  clear_guild_warnings_answer =
      remove w c (codes "clear_guild_warnings") (to_string w.guild_id ∷ []) (codes "guild_id")
        (plain (codes "Warnings for this server have been removed.") (guild_footer w) [])
        (codes "This guild has no warnings.")

  unfoldable pub clear_guild_warnings : Session → Option Session
  unfolding run respond check_bot lacks_manage_guild clear_guild_warnings_answer
  clear_guild_warnings =
      run (check_bot w (λ r. r.has_manage_guild) lacks_manage_guild)
        (respond c clear_guild_warnings_answer)

  -- clear_warnings.cpp
  unfoldable pub clear_warnings_answer : Member → Session → Option Session
  unfolding remove plain user_footer
  clear_warnings_answer m =
      remove w c (codes "clear_warnings") (to_string m.user_id ∷ to_string w.guild_id ∷ [])
        (codes "user_id")
        (plain (codes "Warnings for member **" ++ (m.username ++ codes "** cleared."))
          (user_footer m.user_id) [])
        (codes "This member has no warnings.")

  unfoldable pub clear_warnings : Member → Session → Option Session
  unfolding run respond check_member clear_warnings_answer
  clear_warnings m =
      run (check_member w (codes "clear warnings") m) (respond c (clear_warnings_answer m))

  -- delete_warning.cpp: the checks find the member, by the warning.
  unfoldable pub delete_warning_check : Text → Session → Option (Option Member × Session)
  unfolding bot_top refuse too_high
  delete_warning_check warning_id s = do
    top ← bot_top w
    let s' =
        if top.has_moderate_members
        then s
        else refuse
            (cross
              ++ (codes
                    "Bot lacks the appropriate permissions. Please check if the bot has Moderate "
                  ++ codes "Members permission."))
            s
    result ← query_one w (codes "warning_lookup") (warning_id ∷ to_string w.guild_id ∷ [])
    unknown ← is_null result (codes "user_id")
    if unknown
        then some (none, refuse (cross ++ codes " Warning does not exist.") s')
        else (as_number result (codes "user_id") >>= λ id.
            w.find_guild_member w.guild_id id >>= λ m. top_role w m >>= λ address.
            w.role_at address >>= λ member_top. some (
              some m,
              if ltb top.position member_top.position
                  then refuse (too_high m (codes "delete a warning")) s'
                  else s',
            ))

  unfoldable pub delete_warning_answer : Text → Option Member → Session → Option Session
  unfolding remove plain user_footer
  delete_warning_answer warning_id m s = m >>= λ m'.
      remove w c (codes "remove_warning") (warning_id ∷ to_string w.guild_id ∷ []) (codes "warn_id")
        (plain
          (codes "Warning "
            ++ (warning_id
                ++ (codes " for member **" ++ (m'.username ++ codes "** has been removed."))))
          (user_footer m'.user_id) [])
        (codes "Warning doesn't exist.") s

  unfoldable pub delete_warning : Text → Session → Option Session
  unfolding delete_warning_check delete_warning_answer respond
  delete_warning warning_id s = delete_warning_check warning_id s >>= λ (m, s').
      if s'.cancel_operation then some s' else respond c (delete_warning_answer warning_id m) s'

  -- The fields of view_warnings.cpp, and the embeds of view_guild_warnings.cpp, a row each.
  unfoldable pub warning_fields : List Text → List Row → Option (List (Text × Text))
  warning_fields columns [] = some []
  warning_fields columns (row ∷ rows) = do
    let f : Fetched = record { columns = columns; row = row }
    id ← as_text f (codes "warn_id")
    reason ← as_text f (codes "reason")
    rest ← warning_fields columns rows
    some ((codes "Warning id " ++ id, codes "Reason: " ++ reason) ∷ rest)

  unfoldable pub view_warnings_answer : Member → Session → Option Session
  unfolding warning_fields plain user_footer send send_text
  view_warnings_answer m s =
      query w (codes "view_warnings") (to_string w.guild_id ∷ to_string m.user_id ∷ [])
      >>= λ (columns, rows). elim rows [
        | [] ↦ send_text c (codes "This member has no warnings.") s
        | row ∷ others ↦
            (warning_fields columns (row ∷ others) >>= λ fields.
            if c.interaction
            then send c
                (plain (codes "Warnings for member **" ++ (m.username ++ codes "**"))
                    (user_footer m.user_id) fields
                  ∷ [])
                s
            else send_text c (codes "This member has no warnings.") s)
      ]

  unfoldable pub view_warnings : Member → Session → Option Session
  unfolding run respond check_member view_warnings_answer
  view_warnings m =
      run (check_member w (codes "view warnings") m) (respond c (view_warnings_answer m))

  unfoldable pub warning_embeds : List Text → List Row → Option (List Embed)
  unfolding plain
  warning_embeds columns [] = some []
  warning_embeds columns (row ∷ rows) = do
    let f : Fetched = record { columns = columns; row = row }
    user_id ← as_number f (codes "user_id")
    warning_id ← as_number f (codes "warn_id")
    mod_id ← as_number f (codes "mod_id")
    reason ← as_text f (codes "reason")
    user ← w.find_user user_id
    moderator ← w.find_guild_member w.guild_id mod_id
    rest ← warning_embeds columns rows
    some (
        plain (codes "Warnings for " ++ c.guild_name) [] (
          (codes "Warning id: ", to_string warning_id)
          ∷ (codes "User: ", codes "**" ++ (user.username ++ codes "**"))
          ∷ (codes "Warned by: ", codes "**" ++ (moderator.username ++ codes "**"))
          ∷ (codes "Reason: ", reason)
          ∷ [])
        ∷ rest)

  unfoldable pub view_guild_warnings_answer : Session → Option Session
  unfolding warning_embeds send send_text
  view_guild_warnings_answer s =
      query w (codes "view_guild_warnings") (to_string w.guild_id ∷ []) >>= λ (columns, rows).
      elim rows [
        | [] ↦ send_text c (codes "This server has no warnings.") s
        | row ∷ others ↦
            (warning_embeds columns (row ∷ others) >>= λ embeds.
            if ltb max_embeds (length embeds)
            then some (record (request (paginate true embeds) s) { moved = true })
            else send c embeds s)
      ]

  unfoldable pub view_guild_warnings : Session → Option Session
  unfolding run respond check_bot lacks_manage_guild view_guild_warnings_answer
  view_guild_warnings =
      run (check_bot w (λ r. r.has_manage_guild) lacks_manage_guild)
        (respond c view_guild_warnings_answer)
