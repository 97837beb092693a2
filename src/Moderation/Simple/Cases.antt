-- ===== src/Moderation/Simple/Cases.antt =====
-- src/cogs/moderation/wrappers/logging: the commands that show and change cases.
use reactaio.Prelude.{
  true, false, List, [], ◌∷◌, ◌++◌, Option, none, some, if◌then◌else◌, ◌==◌, Text, codes, ℕ, length,
}
use reactaio.Decimal.{to_string}
use reactaio.Moderation.World.{
  Member, World, Command, Embed, Session, Row, paginate, exec_statement, user_get_cached,
  edit_response, command_insert, Completion, succeeded, failed,
}
use reactaio.Moderation.Roles.{◌>>=◌}
use reactaio.Moderation.Session.{request, with_command}
use reactaio.Moderation.Rows.{Fetched, query, query_one, is_null, as_number, as_text}
use reactaio.Moderation.Simple.{
  check_bot, lacks_moderate, respond, run, send, send_text, guild_footer,
}
use reactaio.Moderation.Simple.Warnings.{plain}

-- The field of a duration, where there is one.
unfoldable pub duration_field : Fetched → Option (List (Text × Text))
duration_field f = is_null f (codes "duration") >>= λ empty.
    if empty
    then some []
    else (as_text f (codes "duration") >>= λ duration. some ((codes "Duration: ", duration) ∷ []))

module _ (w : World) (c : Command) where
  -- `check_permissions` of all of them.
  unfoldable pub check_permissions : Session → Option Session
  unfolding check_bot lacks_moderate
  check_permissions = check_bot w (λ r. r.has_moderate_members) lacks_moderate

  unfoldable pub unknown_case : Text → Text
  unknown_case case_id = codes "Modcase " ++ (case_id ++ codes " does not exist in the guild")

  -- The answers of change_reason.cpp and change_duration.cpp: both update the reason. A case that was
  -- found is answered with an embed and not logged; else the log of the command follows, in a
  -- transaction that has been committed.
  unfoldable pub update_reason : Text → Text → Embed → Session → Option Session
  unfolding unknown_case send_text
  update_reason case_id name embed s = do
    let parameters = c.reason ∷ case_id ∷ to_string w.guild_id ∷ []
    result ← query_one w (codes "modcase_update_reason") parameters
    let s' = request (exec_statement (codes "modcase_update_reason") parameters) s
    unknown ← is_null result (codes "case_id")
    let logged =
        if w.executes_after_commit
        then send_text c (unknown_case case_id) (request (command_insert name) s')
        else none
    if unknown
        then logged
        else if c.interaction
        then some (request (edit_response true (embed ∷ [])) s')
        else logged

  unfoldable pub change_reason_answer : Text → Session → Option Session
  unfolding update_reason plain guild_footer
  change_reason_answer case_id = update_reason case_id (codes "Change action reason") (
      plain (codes "Case " ++ (case_id ++ codes " Reason updated")) (guild_footer w)
        ((codes "New Reason: ", c.reason) ∷ []))

  unfoldable pub change_reason : Text → Session → Option Session
  unfolding run respond check_permissions change_reason_answer
  change_reason case_id = run check_permissions (respond c (change_reason_answer case_id))

  -- `old_duration` stays empty, since nothing calls `update_duration`.
  unfoldable pub change_duration_answer : Text → Session → Option Session
  unfolding update_reason plain guild_footer
  change_duration_answer case_id = update_reason case_id (codes "Change command duration") (
      plain (codes "Case " ++ (case_id ++ codes " Duration updated")) (guild_footer w)
        ((codes "Old Duration: ", []) ∷ (codes "New Duration: ", c.duration) ∷ []))

  unfoldable pub change_duration : Text → Session → Option Session
  unfolding run respond check_permissions change_duration_answer
  change_duration case_id = run check_permissions (respond c (change_duration_answer case_id))

  -- view_modcase.cpp: the embed is made when the user has come, and the message is sent before.
  unfoldable pub view_modcase_answer : Text → Session → Option Session
  unfolding unknown_case send_text
  view_modcase_answer case_id s = do
    result ← query_one w (codes "view_modcase") (case_id ∷ to_string w.guild_id ∷ [])
    unknown ← is_null result (codes "punished_id")
    if unknown
        then send_text c (unknown_case case_id) s
        else (as_number result (codes "punished_id") >>= λ user_id.
            let s' = request (user_get_cached user_id) s in
            if c.interaction
            then some (request (edit_response true []) s')
            else send_text c (unknown_case case_id) s')

  -- The end of `user_get_cached`, with the name of the user: the embed that the message then gets. The
  -- arguments of `find_guild_member` are exchanged.
  unfoldable pub view_modcase_callback : Text → Fetched → ℕ → Completion → Text → Option Embed
  unfolding plain guild_footer duration_field
  view_modcase_callback case_id result user_id succeeded username = do
    action ← as_text result (codes "action")
    reason ← as_text result (codes "reason")
    mod_id ← as_number result (codes "mod_id")
    moderator ← w.find_guild_member mod_id w.guild_id
    duration ← duration_field result
    some (
        plain (codes "Case " ++ case_id) (guild_footer w) (
          (codes "User: ", username)
          ∷ (codes "Punishment Type: ", action)
          ∷ (codes "Punished By: ", moderator.mention)
          ∷ (codes "Reason: ", reason)
          ∷ duration))
  view_modcase_callback case_id result user_id (failed code reason) username = some (
      plain (codes "Case " ++ case_id) (guild_footer w)
        ((codes "User id: " ++ to_string user_id, []) ∷ []))

  unfoldable pub view_modcase : Text → Session → Option Session
  unfolding run respond check_permissions view_modcase_answer
  view_modcase case_id = run check_permissions (respond c (view_modcase_answer case_id))

  -- The fields of a row in view_user_modcases.cpp.
  unfoldable pub user_fields : Member → List Text → List Row → Option (List (Text × Text))
  unfolding duration_field
  user_fields m columns [] = some []
  user_fields m columns (row ∷ rows) = do
    let f : Fetched = record { columns = columns; row = row }
    mod_id ← as_number f (codes "mod_id")
    moderator ← w.find_guild_member mod_id w.guild_id
    reason ← as_text f (codes "reason")
    action ← as_text f (codes "action")
    duration ← duration_field f
    rest ← user_fields m columns rows
    some (
        ((codes "User: ", m.mention)
          ∷ (codes "Punishment: ", action)
          ∷ (codes "Punished By: ", moderator.mention)
          ∷ duration)
        ++ (codes "Reason: ", reason) ∷ rest)

  -- The embed with the fields is not put into the message.
  unfoldable pub view_user_modcases_answer : Member → Session → Option Session
  unfolding user_fields send_text send
  view_user_modcases_answer m s =
      let nothing = codes "No modcase found for user **" ++ (m.username ++ codes "**.") in
      query w (codes "modcase_view_user") (to_string m.user_id ∷ to_string w.guild_id ∷ [])
      >>= λ (columns, rows). elim rows [
        | [] ↦ send_text c nothing s
        | row ∷ others ↦ (user_fields m columns (row ∷ others) >>= λ fields. send c [] s)
      ]

  unfoldable pub view_user_modcases : Member → Session → Option Session
  unfolding run respond check_permissions view_user_modcases_answer
  view_user_modcases m = run check_permissions (respond c (view_user_modcases_answer m))

  -- The fields of a row in view_mod_modcases.cpp. Only the search for the member is guarded.
  unfoldable pub mod_fields : Member → List Text → List Row → Option (List (Text × Text))
  unfolding duration_field
  mod_fields moderator columns [] = some []
  mod_fields moderator columns (row ∷ rows) = do
    let f : Fetched = record { columns = columns; row = row }
    mod_id ← as_number f (codes "mod_id")
    reason ← as_text f (codes "reason")
    action ← as_text f (codes "action")
    punished_id ← as_number f (codes "punished_id")
    let user : List (Text × Text) = elim (w.find_guild_member punished_id w.guild_id) [
      | none ↦ []
      | some m ↦ (codes "User: ", m.mention) ∷ []
    ]
    duration ← duration_field f
    rest ← mod_fields moderator columns rows
    some (
        user
        ++ (((codes "Punishment: ", action) ∷ (codes "Punished By: ", moderator.mention) ∷ duration)
            ++ (codes "Reason: ", reason) ∷ rest))

  -- It asks for the cases that punished the moderator, and leaves the embed out of the message.
  unfoldable pub view_mod_modcases_answer : Member → Session → Option Session
  unfolding mod_fields send_text send
  view_mod_modcases_answer m s =
      let nothing = codes "No modcase found for mod **" ++ (m.username ++ codes "**.") in
      query w (codes "modcase_view_user") (to_string m.user_id ∷ to_string w.guild_id ∷ [])
      >>= λ (columns, rows). elim rows [
        | [] ↦ send_text c nothing s
        | row ∷ others ↦ (mod_fields m columns (row ∷ others) >>= λ fields. send c [] s)
      ]

  unfoldable pub view_mod_modcases : Member → Session → Option Session
  unfolding run respond check_permissions view_mod_modcases_answer
  view_mod_modcases m = run check_permissions (respond c (view_mod_modcases_answer m))

  -- The embeds of view_guild_modcases.cpp; a member that the cache has not is passed over.
  unfoldable pub guild_embeds : List Text → List Row → Option (List Embed)
  unfolding plain guild_footer duration_field
  guild_embeds columns [] = some []
  guild_embeds columns (row ∷ rows) = do
    let f : Fetched = record { columns = columns; row = row }
    mod_id ← as_number f (codes "mod_id")
    moderator ← w.find_guild_member mod_id w.guild_id
    reason ← as_text f (codes "reason")
    action ← as_text f (codes "action")
    user_id ← as_number f (codes "punished_id")
    rest ← guild_embeds columns rows
    elim (w.find_guild_member w.guild_id user_id) [
      | none ↦ some rest
      | some m ↦
          (duration_field f >>= λ duration. some (
            plain (codes "All modcases for " ++ c.guild_name) (guild_footer w) (
              ((codes "User: ", m.mention)
                ∷ (codes "User: ", m.username)
                ∷ (codes "User id: ", to_string user_id)
                ∷ (codes "Punishment: ", action)
                ∷ (codes "Punished By: ", moderator.mention)
                ∷ duration)
              ++ (codes "Reason: ", reason) ∷ [])
            ∷ rest))
    ]

  -- With any number of embeds but one the message goes into a paginator, and is then sent again, by
  -- the command that the paginator has taken.
  unfoldable pub view_guild_modcases_answer : Session → Option Session
  unfolding guild_embeds send_text send
  view_guild_modcases_answer s =
      query w (codes "modcase_view_guild") (to_string w.guild_id ∷ to_string w.guild_id ∷ [])
      >>= λ (columns, rows). elim rows [
        | [] ↦ send_text c (codes "No modcase found for this guild.") s
        | row ∷ others ↦
            (guild_embeds columns (row ∷ others) >>= λ embeds.
            if length embeds == 1
            then send c [] s
            else (let s' = record (request (paginate false embeds) s) { moved = true } in
                if c.interaction then with_command s' (send c embeds s') else some s'))
      ]

  unfoldable pub view_guild_modcases : Session → Option Session
  unfolding run respond check_permissions view_guild_modcases_answer
  view_guild_modcases = run check_permissions (respond c view_guild_modcases_answer)
