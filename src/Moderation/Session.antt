-- ===== src/Moderation/Session.antt =====
-- What src/cogs/moderation/wrappers/command_wrapper.cpp and member_wrapper.cpp do for the commands:
-- error reports, the log of commands and the log of cases. `none` is undefined behaviour, which a
-- use of the command after its move into a paginator is, since its pointers are null by then.
pub mod Acts
pub mod Reports
use reactaio.Prelude.{
  ◌%◌, ◌^◌, ℕ, suc, ◌+◌, Bool, true, false, not, ◌&&◌, List, [], ◌∷◌, ◌++◌, Option, none, some,
  if◌then◌else◌, ◌==◌, null, Text, codes, map, length,
}
use reactaio.Helpers.{join_with_limit}
use reactaio.Duration.{Duration, show, parse_human_time}
use reactaio.Prelude.Result.{Result, ok, throw}
use reactaio.Algorithm.{set_difference}
use reactaio.Moderation.World.{
  execute_webhook, direct_embeds, modcase_insert_duration, Member, World, Command, Embed, Request,
  Session, Completion, member_key, modcase_insert, command_insert, edit_response, paginate,
  error_webhook, direct_errors,
}
use reactaio.Moderation.Roles.{◌>>=◌}
use reactaio.Moderation.Statements.{exec_prepared}

-- `bot_max_embed_chars`
abbrev pub max_embed_chars : ℕ
max_embed_chars = 4096

abbrev pub request : Request → Session → Session
request r s = record s { requests = s.requests ++ r ∷ [] }

-- Code that follows a pointer of the command.
abbrev pub with_command {ℓ} : {A : Type ℓ} → Session → Option A → Option A
with_command s r = if s.moved then none else r

unfoldable pub error_embed : Text → Text → Embed
error_embed title error = record {
  title = title;
  description = error;
  image = [];
  footer = [];
  fields = [];
}

unfoldable dm_notice : Text
dm_notice =
    codes
      "The server hasn't set a channel for bot errors, so the errors are being sent to your DMs: \n\n\n "

-- `invoke_error_webhook`, which throws where the guild has no row of webhooks. More than one chunk goes into a paginator, which takes the command with it.
unfoldable pub invoke_error_webhook : World → Command → Session → Option Session
unfolding dm_notice
invoke_error_webhook w c s = with_command s (elim (join_with_limit s.errors max_embed_chars) [
  | [] ↦ none
  | content ∷ [] ↦ if w.lacks_webhooks then none else elim (w.webhooks (codes "bot_error_logs")) [
    | some url ↦ some (request (error_webhook url content) s)
    | none ↦ some (request (direct_errors c.author.user_id (dm_notice ++ content)) s)
  ]
  | _ ∷ _ ∷ _ ↦ none
])

-- A message for the author alone, with one embed a chunk: a reply if the chunks are one, else a
-- paginator.
unfoldable pub reply_with : Bool → ℕ → List Embed → Session → Session
reply_with hidden chunks embeds s =
    if chunks == 1
    then request (edit_response hidden embeds) s
    else record (request (paginate hidden embeds) s) { moved = true }

unfoldable own_notice : Text
own_notice =
    codes "This server hasn't set a channel for bot errors. So the errors are being "
    ++ codes "sent to your DMs:"

-- What some commands do in place of `invoke_error_webhook`: they ask for "botlog", a statement that
-- has to be prepared.
unfoldable pub send_errors : World → Command → List Embed → Session → Option Session
unfolding own_notice
send_errors w c embeds s = with_command s (
    exec_prepared (codes "botlog") 1 >>= λ columns. elim (w.webhooks (codes "bot_error_logs")) [
      | some url ↦ some (request (execute_webhook url embeds) s)
      | none ↦ some (request (direct_embeds c.author.user_id own_notice embeds) s)
    ])

-- The block `if(cancel_operation)` that ends each `check_permissions`.
unfoldable pub reject : World → Command → Text → Session → Option Session
unfolding error_embed reply_with invoke_error_webhook
reject w c title s =
    let organized = join_with_limit s.errors max_embed_chars in
    let embeds = s.error_embeds ++ map (error_embed title) organized in
    let s' = record s { error_embeds = embeds } in
    if c.interaction
    then some (reply_with true (length organized) embeds s')
    else invoke_error_webhook w c s'

-- `log_command_invoke`
unfoldable pub log_command_invoke : Text → Session → Option Session
log_command_invoke name s = with_command s (some (request (command_insert name) s))

-- `duration->to_string()` is not shortened.
unfoldable pub insert_cases : Option Duration → ℕ → Text → List ℕ → List Request
insert_cases duration id name [] = []
insert_cases none id name (user ∷ users) =
    modcase_insert id name user ∷ insert_cases none id name users
insert_cases (some d) id name (user ∷ users) =
    modcase_insert_duration id name (show false d) user ∷ insert_cases (some d) id name users

-- `max_id`. A query for one row throws where the guild has no case.
unfoldable pub next_case : World → Option ℕ
next_case w = w.case_id >>= λ row. some (elim row [ none ↦ 1 | some n ↦ (n + 1) % 2 ^ 64 ])

-- `member_wrapper::log_modcase`: a row for every member that has met no error so far.
unfoldable pub log_modcase : World → Text → Session → Option Session
unfolding insert_cases next_case
log_modcase w name s = with_command s (
    next_case w >>= λ id.
    set_difference member_key w.past_members s.members s.members_with_errors [] >>= λ fine.
    some (record s {
      requests = s.requests ++ insert_cases s.duration id name (map (λ m. m.user_id) fine);
    }))

-- `are_all_errors` and `has_error`
unfoldable pub are_all_errors : Session → Bool
are_all_errors s = length s.members_with_errors == length s.members

unfoldable pub has_error : Session → Bool
has_error s = not (null s.errors)

-- The constructors of the wrappers. An exception of `parse_human_time` leaves no wrapper.
-- `replace_all` works on the parameter, whose value has been moved to the member by then.
unfoldable pub construct : Command → List Member → Result Session
construct c members = elim (parse_human_time c.duration) [
  | throw e ↦ throw e
  | ok duration ↦ ok (record {
    duration = duration;
    members = members;
    members_with_errors = [];
    errors = [];
    cancel_operation = false;
    error_embeds = [];
    moved = false;
    requests = [];
  })
]
