-- ===== src/Moderation/Simple/Faults.antt =====
-- Which commands on warnings and cases cannot answer.
use reactaio.Prelude.{
  ◌≡◌, ◌⊎◌, inl, inr, refl, sym, ap, ◌∙◌, true, false, List, Option, none, some, length, arith,
  Bool-cases, Text, codes, if-true, if-false, if-none, option_inj,
}
use reactaio.Moderation.World.{Member, World, Command, Session}
use reactaio.Moderation.Checks.Allowed.{>>=-eq-some}
use reactaio.Moderation.Session.{has_error}
use reactaio.Moderation.Statements.{exec_prepared}
use reactaio.Moderation.Rows.{query, query_one}
use reactaio.Moderation.Simple.Cases
use reactaio.Moderation.Simple.Commands.{
  Simple, change_reason, change_duration, view_modcase, view_mod_modcases, view_guild_modcases,
  clear_warnings, clear_guild_warnings, wrapper_function, check, answer, delete_warning,
  view_warnings, view_guild_warnings, view_user_modcases,
}
use reactaio.Moderation.Simple.Refusals.{straight, wrapper_function-straight, check-Checked}

-- The commands whose statement is not prepared, or is given one parameter too many.
unfoldable pub Misasks : Simple → Type 0
Misasks (change_reason _) = Unit
Misasks (change_duration _) = Unit
Misasks (view_modcase _) = Unit
Misasks view_guild_modcases = Unit
Misasks _ = ⊥

no_view_modcase : exec_prepared (codes "view_modcase") 2 ≡ none
unfolding exec_prepared
no_view_modcase = refl

no_update_reason : exec_prepared (codes "modcase_update_reason") 3 ≡ none
unfolding exec_prepared
no_update_reason = refl

no_view_guild : exec_prepared (codes "modcase_view_guild") 2 ≡ none
unfolding exec_prepared
no_view_guild = refl

module _ (w : World) (c : Command) where
  query-none :
      (name : Text) (parameters : List Text)
      → exec_prepared name (length parameters) ≡ none
      → query w name parameters ≡ none
  unfolding query
  query-none name parameters e = rw e refl

  query_one-none :
      (name : Text) (parameters : List Text)
      → exec_prepared name (length parameters) ≡ none
      → query_one w name parameters ≡ none
  unfolding query_one query
  query_one-none name parameters e = rw e refl

  Misasks-none :
      (q : Simple) (m : Option Member) (s : Session) → Misasks q → answer w c q m s ≡ none
  unfolding Misasks answer Cases.change_reason_answer Cases.change_duration_answer
      Cases.update_reason Cases.view_modcase_answer Cases.view_guild_modcases_answer
  Misasks-none (change_reason id) m s h =
      rw (query_one-none (codes "modcase_update_reason") _ no_update_reason) refl
  Misasks-none (change_duration id) m s h =
      rw (query_one-none (codes "modcase_update_reason") _ no_update_reason) refl
  Misasks-none (view_modcase id) m s h =
      rw (query_one-none (codes "view_modcase") _ no_view_modcase) refl
  Misasks-none view_guild_modcases m s h =
      rw (query-none (codes "modcase_view_guild") _ no_view_guild) refl
  Misasks-none clear_guild_warnings m s h = absurd h
  Misasks-none (clear_warnings x) m s h = absurd h
  Misasks-none (delete_warning id) m s h = absurd h
  Misasks-none (view_warnings x) m s h = absurd h
  Misasks-none view_guild_warnings m s h = absurd h
  Misasks-none (view_user_modcases x) m s h = absurd h
  Misasks-none (view_mod_modcases x) m s h = absurd h

  -- A command that begins without errors and returns: the end of its checks, and what its answer gave.
  pub wrapper_function_ends :
      (q : Simple) (s s' : Session)
      → has_error s ≡ false
      → wrapper_function w c q s ≡ some s'
      → (m : Option Member) × (t : Session) × (check w c q s ≡ some (m, t))
        × (((t.cancel_operation ≡ true) × (s' ≡ t)) ⊎ ((t ≡ s) × (answer w c q m s ≡ some s')))
  unfolding straight
  wrapper_function_ends q s s' n e =
      let ((m, t), run, e1) =
        >>=-eq-some (check w c q s) _ (sym (wrapper_function-straight w c q s n) ∙ e) in
      (
        m,
        t,
        run,
        elim (check-Checked w c q s t m run) [
          | inr r ↦
              inl (r.cancelled, sym (option_inj (if-true t.cancel_operation _ _ r.cancelled e1)))
          | inl p ↦ elim (Bool-cases t.cancel_operation) [
            | inl k ↦ inl (k, sym (option_inj (if-true t.cancel_operation _ _ k e1)))
            | inr k ↦
                let (_, e2) = if-none t.moved (if-false t.cancel_operation _ _ k e1) in
                inr (p, ap (answer w c q m) (sym p) ∙ e2)
          ]
        ],
      )

  -- The commands that change a reason or a duration, show a case or show the cases of the guild return
  -- only if they are refused: the library throws at the statement that they ask for.
  pub cannot_answer :
      (q : Simple) (s s' : Session)
      → Misasks q
      → has_error s ≡ false
      → wrapper_function w c q s ≡ some s'
      → s'.cancel_operation ≡ true
  cannot_answer q s s' h n e =
      let (m, t, _, ends) = wrapper_function_ends q s s' n e in
      elim ends [
        | inl (k, p) ↦ ap (λ x. x.cancel_operation) p ∙ k
        | inr (_, a) ↦ absurd (ground (arith, sym (Misasks-none q m s h) ∙ a))
      ]
