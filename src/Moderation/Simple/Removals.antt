-- ===== src/Moderation/Simple/Removals.antt =====
-- What the commands of src/cogs/moderation/wrappers/warning management remove.
use reactaio.Moderation.Simple.Faults.{wrapper_function_ends}
use mathlib.Core.Path.{subst}
use reactaio.Moderation.Simple.{send, send_text}
use reactaio.Prelude.{
  ◌≡◌, ◌⊎◌, inl, inr, refl, sym, ap, ◌∙◌, true, false, List, [], ◌∷◌, Option, none, some, length,
  arith, Bool-cases, Text, codes, if-true, if-false, option_inj, append-nil, ◌++◌,
}
use reactaio.Decimal.{to_string}
use reactaio.Moderation.World.{
  Member, World, Command, Session, Row, Embed, Request, exec_statement, Embed, Request,
  exec_statement,
}
use reactaio.Moderation.Checks.Allowed.{>>=-eq-some}
use reactaio.Moderation.Session.{has_error, request}
use reactaio.Moderation.Statements.{exec_prepared}
use reactaio.Moderation.Rows.{Fetched, query, query_one, only, is_null}
use reactaio.Moderation.Simple.Warnings
use reactaio.Moderation.Simple.Warnings.{remove}
use reactaio.Moderation.Simple.Commands.{
  Simple, change_reason, change_duration, view_modcase, view_mod_modcases, view_guild_modcases,
  clear_warnings, clear_guild_warnings, wrapper_function, answer, delete_warning, view_warnings,
  view_guild_warnings, view_user_modcases,
}

module _ (w : World) (c : Command) where
  -- The statement of the commands that remove warnings, with its parameters.
  unfoldable pub removal : Simple → Option (Text × List Text)
  removal clear_guild_warnings = some (codes "clear_guild_warnings", to_string w.guild_id ∷ [])
  removal (clear_warnings m) =
      some (codes "clear_warnings", to_string m.user_id ∷ to_string w.guild_id ∷ [])
  removal (delete_warning id) = some (codes "remove_warning", id ∷ to_string w.guild_id ∷ [])
  removal _ = none

  only-some :
      (columns : List Text) (rows : List Row) (f : Fetched)
      → only columns rows ≡ some f
      → (row : Row) × (rows ≡ row ∷ [])
  unfolding only
  only-some columns [] f e = absurd (ground arith)
  only-some columns (row ∷ []) f e = (row, refl)
  only-some columns (_ ∷ _ ∷ _) f e = absurd (ground arith)

  sent_after :
      (embeds : List Embed) (text : Text) (r : Request) (s s' : Session)
      → (send c embeds (request r s) ≡ some s') ⊎ (send_text c text (request r s) ≡ some s')
      → (rest : List Request) × (s'.requests ≡ (s.requests ++ r ∷ []) ++ rest)
  unfolding send send_text
  sent_after embeds text r s s' h = elim (Bool-cases c.interaction) [
    | inl i ↦ elim h [
      | inl e ↦ (_, ap (λ x. x.requests) (sym (option_inj (rw i at e))))
      | inr e ↦ (_, ap (λ x. x.requests) (sym (option_inj (rw i at e))))
    ]
    | inr i ↦ elim h [
      | inl e ↦ ([], ap (λ x. x.requests) (sym (option_inj (rw i at e))) ∙ sym (append-nil _))
      | inr e ↦ ([], ap (λ x. x.requests) (sym (option_inj (rw i at e))) ∙ sym (append-nil _))
    ]
  ]

  -- One row was there to remove, and its removal is asked for first.
  unfoldable pub Removed : Text → List Text → Session → Session → Type 0
  Removed name parameters s s' =
      ((row : Row) × (w.rows name parameters ≡ row ∷ []))
      × ((rest : List Request) × (s'.requests
            ≡ (s.requests ++ exec_statement name parameters ∷ []) ++ rest))

  remove_one :
      (name : Text) (parameters : List Text) (column nothing : Text) (embed : Embed)
      (s s' : Session)
      → remove w c name parameters column embed nothing s ≡ some s'
      → Removed name parameters s s'
  unfolding remove query_one query Removed
  remove_one name parameters column nothing embed s s' e =
      let (f, run, e0) = >>=-eq-some (query_one w name parameters) _ e in
      let ((columns, rows), asked, one) = >>=-eq-some (query w name parameters) _ run in
      let (_, _, e1) = >>=-eq-some (exec_prepared name (length parameters)) _ asked in
      let (row, q) = only-some columns rows f one in
      let (empty, _, e2) = >>=-eq-some (is_null f column) _ e0 in
      let r = exec_statement name parameters in
      (
        (row, ap (λ x. x.1) (option_inj e1) ∙ q),
        elim (Bool-cases empty) [
          | inl i ↦ sent_after (embed ∷ []) nothing r s s' (inr (if-true empty _ _ i e2))
          | inr i ↦
              let e3 = if-false empty _ _ i e2 in
              elim (Bool-cases c.interaction) [
                | inl j ↦
                    sent_after (embed ∷ []) nothing r s s' (inl (if-true c.interaction _ _ j e3))
                | inr j ↦
                    sent_after (embed ∷ []) nothing r s s' (inr (if-false c.interaction _ _ j e3))
              ]
        ],
      )

  removal-Removed :
      (q : Simple) (m : Option Member) (s s' : Session) (name : Text) (parameters : List Text)
      → removal q ≡ some (name, parameters)
      → answer w c q m s ≡ some s'
      → Removed name parameters s s'
  unfolding removal answer Warnings.clear_guild_warnings_answer Warnings.clear_warnings_answer
      Warnings.delete_warning_answer
  removal-Removed clear_guild_warnings m s s' name parameters r a =
      subst (λ x. Removed x.0 x.1 s s') (option_inj r) (remove_one _ _ _ _ _ s s' a)
  removal-Removed (clear_warnings x) m s s' name parameters r a =
      subst (λ x. Removed x.0 x.1 s s') (option_inj r) (remove_one _ _ _ _ _ s s' a)
  removal-Removed (delete_warning id) m s s' name parameters r a =
      let (found, _, a1) = >>=-eq-some m _ a in
      subst (λ x. Removed x.0 x.1 s s') (option_inj r) (remove_one _ _ _ _ _ s s' a1)
  removal-Removed (view_warnings x) m s s' name parameters r a = absurd (ground arith)
  removal-Removed view_guild_warnings m s s' name parameters r a = absurd (ground arith)
  removal-Removed (change_reason id) m s s' name parameters r a = absurd (ground arith)
  removal-Removed (change_duration id) m s s' name parameters r a = absurd (ground arith)
  removal-Removed (view_modcase id) m s s' name parameters r a = absurd (ground arith)
  removal-Removed (view_user_modcases x) m s s' name parameters r a = absurd (ground arith)
  removal-Removed (view_mod_modcases x) m s s' name parameters r a = absurd (ground arith)
  removal-Removed view_guild_modcases m s s' name parameters r a = absurd (ground arith)

  -- A command that removes warnings, begins without errors and returns was refused, or there was one
  -- row to remove: it has asked for the removal first.
  pub removes_one :
      (q : Simple) (s s' : Session) (name : Text) (parameters : List Text)
      → has_error s ≡ false
      → removal q ≡ some (name, parameters)
      → wrapper_function w c q s ≡ some s'
      → (s'.cancel_operation ≡ true) ⊎ Removed name parameters s s'
  removes_one q s s' name parameters n r e =
      let (m, t, _, ends) = wrapper_function_ends w c q s s' n e in
      elim ends [
        | inl (k, p) ↦ inl (ap (λ x. x.cancel_operation) p ∙ k)
        | inr (_, a) ↦ inr (removal-Removed q m s s' name parameters r a)
      ]
