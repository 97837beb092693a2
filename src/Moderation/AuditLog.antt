-- ===== src/Moderation/AuditLog.antt =====
-- src/cogs/moderation/wrappers/audit logs/audit_log_wrapper.cpp. `none` is undefined behaviour or an
-- exception.
pub mod Events
pub mod Answer
use reactaio.Prelude.{
  ℕ, zero, suc, ◌+◌, Bool, true, false, List, [], ◌∷◌, ◌++◌, Option, none, some, if◌then◌else◌, ltb,
  Text, codes, map, length,
}
use reactaio.Prelude.Result.{ok, throw}
use reactaio.Decimal.{to_string}
use reactaio.Strings.{replace_all, to_titlecase}
use reactaio.Helpers.{join, join_with_limit}
use reactaio.UniqueVector.{insert}
use reactaio.Moderation.World.{World, Command, Session}
use reactaio.Moderation.Roles.{top_role, get_permitted_roles, ◌>>=◌}
use reactaio.Moderation.Checks.{cross}
use reactaio.Moderation.Session.{
  max_embed_chars, with_command, error_embed, invoke_error_webhook, log_command_invoke, has_error,
  reply_with,
}
use reactaio.Moderation.GuildBans.{is_refused, judge}
use reactaio.Moderation.AuditLog.Events.{event_name}

-- `dpp::audit_entry` behind a shared pointer. A change is a key, an old and a new value.
pub record Entry : Type 0 where
  pub address : ℕ
  pub user_id : ℕ
  pub kind : Text
  pub changes : List (Text × Text × Text)

abbrev pub entry_key : Entry → ℕ
entry_key a = a.address

-- The members of a wrapper object; what the base class has is in `base`.
pub record AuditLog : Type 0 where
  pub base : Session
  pub audit_entries : List Entry

unfoldable pub view_audit_log : Text
view_audit_log = codes "View audit log entry"

unfoldable pub bot_lacks : Text
bot_lacks =
    cross
    ++ (codes "Bot doesn't have the appropriate permissions. Please make sure the View Audit Log "
        ++ codes "permission is enabled.")

-- The errors are not shown.
unfoldable pub check_permissions : World → Command → Session → Option Session
unfolding is_refused judge view_audit_log bot_lacks
check_permissions w c s = do
  bot ← top_role w w.bot_member
  author ← top_role w c.author
  bot_top ← w.role_at bot
  roles ← get_permitted_roles w view_audit_log
  author_top ← w.role_at author
  some (
      judge bot_lacks bot_top.has_view_audit_log
        (is_refused roles author author_top.has_view_audit_log) s)

-- How a call for a page of the log ends.
pub data Fetch : Type 0 where
  got : List Entry → Fetch
  no_page : ℕ → Text → Fetch

-- The loop over a page, with the highest id so far.
unfoldable pub collect_page :
    (List Entry → Option Entry) → List Entry → ℕ → List Entry → Option (ℕ × List Entry)
collect_page past_end [] new_after entries = some (new_after, entries)
collect_page past_end (a ∷ page) new_after entries = do
  entries' ← insert entry_key past_end a entries
  collect_page past_end page (if ltb new_after a.user_id then a.user_id else new_after) entries'

-- `recursive_call`, which no other function calls, and the calls that its callbacks make, for so many
-- pages at most. The answers come from `fetch`; the entries that they hold are copied to addresses that
-- stand in the page.
unfoldable pub recursive_call :
    (List Entry → Option Entry) → (ℕ → Fetch) → ℕ → ℕ → AuditLog → Option AuditLog
unfolding collect_page
recursive_call past_end fetch zero after g = none
recursive_call past_end fetch (suc fuel) after g = elim (fetch after) [
  | no_page code reason ↦
      let text = codes "Error " ++ (to_string code ++ (codes ": " ++ reason)) in
      some (record g { base = record g.base { errors = g.base.errors ++ text ∷ [] } })
  | got page ↦
      (collect_page past_end page after g.audit_entries >>= λ (last, entries).
      recursive_call past_end fetch fuel last (record g { audit_entries = entries }))
]

unfoldable pub change_text : Text × Text × Text → Text
change_text (key, old, new) =
    codes "changed property "
    ++ (key ++ (codes " from " ++ (old ++ (codes " to " ++ (new ++ codes ".")))))

-- The text of an entry. Its target is the user that made it.
unfoldable pub entry_text : World → Entry → Option Text
unfolding event_name change_text
entry_text w a = elim (event_name a.kind) [
  | throw e ↦ none
  | ok name ↦
      (let audit_type = to_titlecase (replace_all name (codes "_") (codes " ")) in
        w.find_guild_member w.guild_id a.user_id >>= λ m. some (
          codes "Action: "
          ++ (audit_type
              ++ (codes " done by "
                  ++ (m.mention
                      ++ (codes " to "
                          ++ (to_string a.user_id
                              ++ (codes " " ++ join (map change_text a.changes) (codes ", ")))))))))
]

unfoldable pub entry_texts : World → List Entry → Option (List Text)
unfolding entry_text
entry_texts w [] = some []
entry_texts w (a ∷ entries) = do
  text ← entry_text w a
  rest ← entry_texts w entries
  some (text ∷ rest)

unfoldable pub process_response : World → Command → AuditLog → Option AuditLog
unfolding view_audit_log entry_texts
process_response w c g =
    let answered = λ (s : Session). record g { base = s } in
    if has_error g.base
    then (let split = join_with_limit g.base.errors max_embed_chars in
        let embeds = map (error_embed (codes "Error while fetching guild audit log: ")) split in
        some (if c.interaction then answered (reply_with true (length split) embeds g.base) else g))
    else (log_command_invoke view_audit_log g.base >>= λ s.
        entry_texts w g.audit_entries >>= λ audit_logs.
        let split = join_with_limit audit_logs max_embed_chars in
        let embeds = map (error_embed (codes "Error while fetching guild audit logs: ")) split in
        if c.interaction
        then some (answered (reply_with true (length split) embeds s))
        else (invoke_error_webhook w c s >>= λ s'. some (answered s')))

-- `wrapper_function`, which asks for no page.
unfoldable pub wrapper_function : World → Command → AuditLog → Option AuditLog
unfolding check_permissions process_response
wrapper_function w c g = check_permissions w c g.base >>= λ s.
    if s.cancel_operation
    then some (record g { base = s })
    else process_response w c (record g { base = s })
