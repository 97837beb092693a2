-- ===== src/Moderation/Hybrid.antt =====
-- src/cogs/moderation/wrappers/hybrid_wrapper.h and hybrid_wrapper.cpp: commands on members and on
-- users that are not in the guild. `none` is undefined behaviour or an exception.
pub mod Collected
pub mod Cases
use reactaio.Prelude.{
  ℕ, Bool, true, false, List, [], ◌∷◌, ◌++◌, Option, none, some, if◌then◌else◌, ◌==◌, Text, codes,
  map, length,
}
use reactaio.Prelude.Result.{Result, ok, throw}
use reactaio.Helpers.{join_with_limit}
use reactaio.UniqueVector.{insert}
use reactaio.Algorithm.{set_difference, transform}
use reactaio.Moderation.World.{
  Member, User, Target, member_target, user_target, valueless, World, Command, Session, member_key,
  user_key,
}
use reactaio.Moderation.Roles.{◌>>=◌}
use reactaio.Moderation.Session
use reactaio.Moderation.Session.{
  max_embed_chars, with_command, error_embed, invoke_error_webhook, send_errors, reply_with,
  insert_cases, next_case,
}

-- The members of a wrapper object; `members` and what the base class has are in `base`.
pub record Hybrid : Type 0 where
  pub base : Session
  pub snowflakes : List Target
  pub users : List User
  pub users_with_errors : List User

-- The constructor.
unfoldable pub construct : Command → List Target → Result Hybrid
construct c snowflakes = elim (Session.construct c []) [
  | throw e ↦ throw e
  | ok base ↦
      ok (record { base = base; snowflakes = snowflakes; users = []; users_with_errors = [] })
]

unfoldable pub are_all_errors : Hybrid → Bool
are_all_errors h = length h.users_with_errors == length h.snowflakes

-- The user of a snowflake in `log_modcase`: that of a member is copied. A variant without a value
-- throws.
unfoldable pub case_user : World → Target → Option User
case_user w (member_target m) = some (w.copy_user (w.user_of m))
case_user w (user_target u) = some u
case_user w valueless = none

-- `all_users`
unfoldable pub case_users : World → List Target → List User → Option (List User)
unfolding case_user
case_users w [] all_users = some all_users
case_users w (t ∷ targets) all_users = do
  u ← case_user w t
  all_users' ← insert user_key w.past_users u all_users
  case_users w targets all_users'

-- `hybrid_wrapper::log_modcase`
unfoldable pub log_modcase : World → Text → Hybrid → Option Hybrid
unfolding case_users
log_modcase w name h = with_command h.base (
    next_case w >>= λ id. case_users w h.snowflakes [] >>= λ all_users.
    set_difference user_key w.past_users all_users h.users_with_errors [] >>= λ fine.
    some (record h {
      base = record h.base {
        requests = h.base.requests ++ insert_cases h.base.duration id name (map (λ u. u.id) fine);
      };
    }))

-- The loop that begins the `wrapper_function` of the bans, with `invalid_user`.
unfoldable pub collect : World → List Target → Hybrid → Option (Bool × Hybrid)
collect w [] h = some (false, h)
collect w (member_target m ∷ targets) h = do
  members ← insert member_key w.past_members m h.base.members
  users ← insert user_key w.past_users (w.user_of m) h.users
  collect w targets (record h { base = record h.base { members = members }; users = users })
collect w (user_target u ∷ targets) h = do
  users ← insert user_key w.past_users u h.users
  collect w targets (record h { users = users })
collect w (valueless ∷ targets) h = some (
  true,
  record h { base = record h.base { errors = h.base.errors ++ codes "Invalid user." ∷ [] } },
)

-- Errors of a command without an interaction, sent in the way that the flag says.
unfoldable pub tell : Bool → World → Command → List Text → Text → Session → Option Session
tell asks_itself w c texts title s =
    if asks_itself
    then send_errors w c (map (error_embed title) texts) s
    else invoke_error_webhook w c s

-- The block `if(invalid_user)`: one embed for the chunk, or one for each of the errors.
unfoldable pub report_invalid : Bool → World → Command → Text → Hybrid → Option Hybrid
unfolding tell
report_invalid asks_itself w c title h =
    let split = join_with_limit h.base.errors max_embed_chars in
    let texts = if length split == 1 then split else h.base.errors in
    if c.interaction
    then some
        (record h { base = reply_with true (length split) (map (error_embed title) texts) h.base })
    else (tell asks_itself w c texts title h.base >>= λ s. some (record h { base = s }))
