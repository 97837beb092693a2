-- ===== src/Moderation/Open.antt =====
-- `check_permissions` of the warn, soft ban and unmute commands of src/cogs/moderation/wrappers,
-- which ask nothing of the author's flags.
pub mod Granted
use reactaio.Prelude.{
  ℕ, Bool, true, false, List, [], ◌∷◌, ◌++◌, Option, none, some, if◌then◌else◌, null, Text, codes,
  map, length,
}
use reactaio.Helpers.{join_with_limit}
use reactaio.Algorithm.{transform}
use reactaio.Moderation.World.{
  Role, Member, World, Command, Session, role_key, execute_webhook, direct_embeds,
}
use reactaio.Moderation.Roles.{top_role, ◌>>=◌}
use reactaio.Moderation.Checks.{Texts, Verdict, check_members, report}
use reactaio.Moderation.Session.{max_embed_chars, error_embed, reply_with, send_errors}

pub record Open : Type 0 where
  pub texts : Texts
  pub no_bots : Bool
  pub bot_can : Role → Bool
  pub bot_lacks : Text

module _ (w : World) (c : Command) where
  -- The tests, on `errors` and `cancel_operation`. The author's top role is looked at in the loop
  -- alone.
  unfoldable pub judge_open : Open → List ℕ → List Member → Verdict → Option Verdict
  judge_open p protected_roles members v = do
    bot ← top_role w w.bot_member
    author ← top_role w c.author
    bot_top ← w.role_at bot
    let v' = if p.bot_can bot_top then v else report p.bot_lacks v
    if null members
        then some v'
        else (w.role_at author >>= λ author_top.
            check_members w p.texts c.author p.no_bots protected_roles bot_top author_top members
              v')

  -- The `protected_roles` of the soft ban and unmute commands: copies, put into an empty container.
  -- `parse_psql_array`, which no file declares, reads the field of the row, if there is one.
  unfoldable pub copy_protected_roles : (Option (List ℕ) → List ℕ) → Option (List ℕ)
  copy_protected_roles parse_psql_array = elim w.protected_roles [
    | none ↦ some []
    | some field ↦ transform role_key w.past_roles (parse_psql_array field) [] w.copy_role
  ]

  -- The block `if(cancel_operation)` of these two, which asks for the webhook itself.
  unfoldable pub reject_open : Text → Session → Option Session
  reject_open title s =
      let organized = join_with_limit s.errors max_embed_chars in
      let embeds = s.error_embeds ++ map (error_embed title) organized in
      let s' = record s { error_embeds = embeds } in
      if c.interaction
      then some (reply_with true (length organized) embeds s')
      else send_errors w c embeds s'
