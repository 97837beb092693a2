-- ===== src/Moderation/Softban/Automatic.antt =====
-- The soft ban and unmute commands of src/cogs/moderation/wrappers without an interaction.
use reactaio.Prelude.{
  ℕ, ◌≡◌, ◌⊎◌, sym, ap, ◌∙◌, true, false, ◌&&◌, List, ◌++◌, Option, none, some, null, Text, map,
  arith, Bool-cases, inl, inr, if-true, if-false, if_false_lem, option_inj,
}
use reactaio.Helpers.{join_with_limit}
use reactaio.Moderation.World.{World, Command, Session}
use reactaio.Moderation.Checks.Allowed.{>>=-eq-some}
use reactaio.Moderation.Open.{judge_open, copy_protected_roles, reject_open}
use reactaio.Moderation.Session.{error_embed, max_embed_chars}
use reactaio.Moderation.Session.Reports.{send_errors-none}
use reactaio.Moderation.Softban
use reactaio.Moderation.Unmute

module _ (w : World) (c : Command) where
  reject_open-none :
      (title : Text) (s : Session) → c.interaction ≡ false → reject_open w c title s ≡ none
  unfolding reject_open
  reject_open-none title s i =
      let embeds =
        s.error_embeds ++ map (error_embed title) (join_with_limit s.errors max_embed_chars) in
      if_false_lem c.interaction _ _ i
      ∙ send_errors-none w c embeds (record s { error_embeds = embeds })

  -- Without an interaction the checks of the soft ban command return only for a command that goes on,
  -- or for an empty list: what would tell the errors asks for a statement that has not been prepared.
  pub softban_automatic :
      (parse_psql_array : Option (List ℕ) → List ℕ) (users : List ℕ) (s s' : Session)
      → c.interaction ≡ false
      → Softban.check_permissions w c parse_psql_array users s ≡ some s'
      → (s'.cancel_operation ≡ false) ⊎ ((null s.members && null users) ≡ true)
  unfolding Softban.check_permissions
  softban_automatic parse_psql_array users s s' i e =
      elim (Bool-cases (null s.members && null users)) [
        | inl n ↦ inr n
        | inr n ↦
            let (roles, _, e1) =
              >>=-eq-some (copy_protected_roles w c parse_psql_array) _
                (if-false (null s.members && null users) _ _ n e) in
            let (v, _, e2) = >>=-eq-some (judge_open w c Softban.checks roles s.members _) _ e1 in
            inl (elim (Bool-cases v.cancel_operation) [
              | inl k ↦ absurd (
                  ground
                    (arith, sym (reject_open-none _ _ i) ∙ if-true v.cancel_operation _ _ k e2))
              | inr k ↦
                  ap (λ x. x.cancel_operation)
                    (sym (option_inj (if-false v.cancel_operation _ _ k e2)))
                  ∙ k
            ])
      ]

  -- The checks of the unmute command return without an interaction only for a command that goes on.
  pub unmute_automatic :
      (parse_psql_array : Option (List ℕ) → List ℕ) (s s' : Session)
      → c.interaction ≡ false
      → Unmute.check_permissions w c parse_psql_array s ≡ some s'
      → s'.cancel_operation ≡ false
  unfolding Unmute.check_permissions
  unmute_automatic parse_psql_array s s' i e =
      let (roles, _, e1) = >>=-eq-some (copy_protected_roles w c parse_psql_array) _ e in
      let (v, _, e2) = >>=-eq-some (judge_open w c Unmute.checks roles s.members _) _ e1 in
      elim (Bool-cases v.cancel_operation) [
        | inl k ↦
            absurd
              (ground (arith, sym (reject_open-none _ _ i) ∙ if-true v.cancel_operation _ _ k e2))
        | inr k ↦
            ap (λ x. x.cancel_operation) (sym (option_inj (if-false v.cancel_operation _ _ k e2)))
            ∙ k
      ]
