-- ===== src/Moderation/UserWrapper.antt =====
-- src/cogs/moderation/wrappers/user_wrapper.h and user_wrapper.cpp, commands on users. `none` is
-- undefined behaviour or an exception.
use reactaio.Moderation.Session.{
  max_embed_chars, request, with_command, error_embed, invoke_error_webhook, log_command_invoke,
  has_error, insert_cases, next_case, reject,
}
use reactaio.Moderation.Roles.{◌>>=◌}
use reactaio.Moderation.World.{User, World, Command, Session, user_key}
use reactaio.Prelude.Result.{Result, ok, throw}
use reactaio.Algorithm.{set_difference}
use reactaio.Moderation.Session
use reactaio.Prelude.{Bool, List, [], ◌++◌, Option, some, ◌==◌, Text, map, length}

-- The members of a wrapper object; what the base class has is in `base`.
pub record Users : Type 0 where
  pub base : Session
  pub users : List User
  pub users_with_errors : List User

-- The constructor of `user_wrapper`.
unfoldable pub construct : Command → List User → Result Users
construct c users = elim (Session.construct c []) [
  | throw e ↦ throw e
  | ok base ↦ ok (record { base = base; users = users; users_with_errors = [] })
]

-- `user_wrapper::are_all_errors`
unfoldable pub are_all_errors : Users → Bool
are_all_errors x = length x.users_with_errors == length x.users

-- `user_wrapper::log_modcase`, which the command does not call.
unfoldable pub log_modcase : World → Text → Users → Option Users
unfolding insert_cases next_case
log_modcase w name x = with_command x.base (
    next_case w >>= λ id.
    set_difference user_key w.past_users x.users x.users_with_errors [] >>= λ fine. some (record x {
      base = record x.base {
        requests = x.base.requests ++ insert_cases x.base.duration id name (map (λ u. u.id) fine);
      };
    }))
