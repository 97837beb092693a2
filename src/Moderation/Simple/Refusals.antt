-- ===== src/Moderation/Simple/Refusals.antt =====
-- That the commands on warnings and cases tell nobody why they refuse.
use reactaio.Prelude.{
  ◌≡◌, ◌⊎◌, inl, inr, refl, sym, ap, Bool, true, false, List, [], ◌∷◌, ◌++◌, Option, some,
  if◌then◌else◌, ltb, Bool-cases, option_inj, Text, if-true, if-false, codes, arith, Option-cases,
  ◌∙◌, if_false_lem, if_true_lem,
}
use reactaio.Moderation.World.{Role, Member, World, Command, Session}
use reactaio.Moderation.Roles.{top_role, ◌>>=◌}
use reactaio.Moderation.Checks.Allowed.{>>=-eq-some}
use reactaio.Moderation.Session.{has_error, with_command, are_all_errors}
use reactaio.Moderation.Rows.{query_one, is_null, as_number}
use reactaio.Moderation.Simple.{
  refuse, bot_top, check_bot, check_member, run, respond, lacks_manage_guild, lacks_moderate,
}
use reactaio.Moderation.Simple.Warnings
use reactaio.Moderation.Simple.Cases
use reactaio.Moderation.Simple.Commands.{
  Simple, clear_guild_warnings, clear_warnings, delete_warning, view_warnings, view_guild_warnings,
  change_reason, change_duration, view_modcase, view_user_modcases, view_mod_modcases,
  view_guild_modcases, alone, check, wrapper_function, answer,
}

-- A check leaves the session as it is, or cancels it with an error, and asks for nothing.
pub record Refuses (s t : Session) : Type 0 where
  pub cancelled : t.cancel_operation ≡ true
  pub told : has_error t ≡ true
  pub silent : t.requests ≡ s.requests

abbrev pub Checked : Session → Session → Type 0
Checked s t = (t ≡ s) ⊎ Refuses s t

has_error-append :
    (es : List Text) (e : Text) (s : Session)
    → has_error (record s { errors = es ++ e ∷ [] }) ≡ true
unfolding has_error
has_error-append [] e s = refl
has_error-append (x ∷ es) e s = refl

refuse-Refuses : (e : Text) (s t : Session) → Checked s t → Refuses s (refuse e t)
unfolding refuse
refuse-Refuses e s t h = record {
  cancelled = refl;
  told = has_error-append t.errors e (refuse e t);
  silent = elim h [ inl p ↦ ap (λ x. x.requests) p | inr r ↦ r.silent ];
}

refuse_if-Checked :
    (b : Bool) (e : Text) (s t : Session) → Checked s t → Checked s (if b then refuse e t else t)
refuse_if-Checked true e s t h = inr (refuse-Refuses e s t h)
refuse_if-Checked false e s t h = h

refuse_unless-Checked :
    (b : Bool) (e : Text) (s t : Session) → Checked s t → Checked s (if b then t else refuse e t)
refuse_unless-Checked true e s t h = h
refuse_unless-Checked false e s t h = inr (refuse-Refuses e s t h)

module _ (w : World) where
  pub check_bot-Checked :
      (can : Role → Bool) (lacks : Text) (s t : Session)
      → check_bot w can lacks s ≡ some t
      → Checked s t
  unfolding check_bot
  check_bot-Checked can lacks s t e =
      let (top, _, e1) = >>=-eq-some (bot_top w) _ e in
      rw (sym (option_inj e1)) (refuse_unless-Checked (can top) _ s s (inl refl))

  check_member-Checked :
      (doing : Text) (m : Member) (s t : Session) → check_member w doing m s ≡ some t → Checked s t
  unfolding check_member
  check_member-Checked doing m s t e =
      let (bot, _, e1) = >>=-eq-some (top_role w w.bot_member) _ e in
      let (address, _, e2) = >>=-eq-some (top_role w m) _ e1 in
      let (top, _, e3) = >>=-eq-some (w.role_at bot) _ e2 in
      let (member_top, _, e4) = >>=-eq-some (w.role_at address) _ e3 in
      rw (sym (option_inj e4)) (
        refuse_if-Checked (ltb top.position member_top.position) _ s _
          (refuse_unless-Checked top.has_moderate_members _ s s (inl refl)))

  delete_warning_check-Checked :
      (c : Command) (id : Text) (s t : Session) (m : Option Member)
      → Warnings.delete_warning_check w c id s ≡ some (m, t)
      → Checked s t
  unfolding Warnings.delete_warning_check
  delete_warning_check-Checked c id s t m e =
      let (top, _, e1) = >>=-eq-some (bot_top w) _ e in
      let (result, _, e2) = >>=-eq-some (query_one w (codes "warning_lookup") _) _ e1 in
      let (unknown, _, e3) = >>=-eq-some (is_null result (codes "user_id")) _ e2 in
      let first = refuse_unless-Checked top.has_moderate_members _ s s (inl refl) in
      elim (Bool-cases unknown) [
        | inl i ↦
            rw (sym (ap (λ x. x.1) (option_inj (if-true unknown _ _ i e3))))
              (inr (refuse-Refuses _ s _ first))
        | inr i ↦
            let (user_id, _, e4) =
              >>=-eq-some (as_number result (codes "user_id")) _ (if-false unknown _ _ i e3) in
            let (found, _, e5) = >>=-eq-some (w.find_guild_member w.guild_id user_id) _ e4 in
            let (address, _, e6) = >>=-eq-some (top_role w found) _ e5 in
            let (member_top, _, e7) = >>=-eq-some (w.role_at address) _ e6 in
            rw (sym (ap (λ x. x.1) (option_inj e7)))
              (refuse_if-Checked (ltb top.position member_top.position) _ s _ first)
      ]

module _ (w : World) (c : Command) where
  alone-Checked :
      (r : Option Session) (s t : Session) (m : Option Member)
      → ((u : Session) → r ≡ some u → Checked s u)
      → alone w c r ≡ some (m, t)
      → Checked s t
  unfolding alone
  alone-Checked r s t m h e =
      let (u, run, e1) = >>=-eq-some r _ e in rw (sym (ap (λ x. x.1) (option_inj e1))) (h u run)

  pub check-Checked :
      (q : Simple) (s t : Session) (m : Option Member) → check w c q s ≡ some (m, t) → Checked s t
  unfolding check Cases.check_permissions
  check-Checked clear_guild_warnings s t m = alone-Checked _ s t m (check_bot-Checked w _ _ s)
  check-Checked (clear_warnings x) s t m = alone-Checked _ s t m (check_member-Checked w _ x s)
  check-Checked (delete_warning id) s t m = delete_warning_check-Checked w c id s t m
  check-Checked (view_warnings x) s t m = alone-Checked _ s t m (check_member-Checked w _ x s)
  check-Checked view_guild_warnings s t m = alone-Checked _ s t m (check_bot-Checked w _ _ s)
  check-Checked (change_reason id) s t m = alone-Checked _ s t m (check_bot-Checked w _ _ s)
  check-Checked (change_duration id) s t m = alone-Checked _ s t m (check_bot-Checked w _ _ s)
  check-Checked (view_modcase id) s t m = alone-Checked _ s t m (check_bot-Checked w _ _ s)
  check-Checked (view_user_modcases x) s t m = alone-Checked _ s t m (check_bot-Checked w _ _ s)
  check-Checked (view_mod_modcases x) s t m = alone-Checked _ s t m (check_bot-Checked w _ _ s)
  check-Checked view_guild_modcases s t m = alone-Checked _ s t m (check_bot-Checked w _ _ s)

  -- The commands, of their checks and their answers.
  unfoldable pub straight : Simple → Session → Option Session
  straight q s = check w c q s >>= λ (m, t).
      if t.cancel_operation then some t else with_command t (answer w c q m t)

  -- After checks that began without an error, `process_response` never meets one.
  rest_lem :
      (ans : Session → Option Session) (s t : Session)
      → has_error s ≡ false
      → Checked s t
      → (if t.cancel_operation then some t else respond c ans t)
        ≡ (if t.cancel_operation then some t else with_command t (ans t))
  unfolding respond are_all_errors
  rest_lem ans s t n h = elim h [
    | inl p ↦
        ap (λ x. if t.cancel_operation then some t else x)
          (if_false_lem (has_error t) _ _ (ap has_error p ∙ n))
    | inr r ↦
        if_true_lem t.cancel_operation _ _ r.cancelled
        ∙ sym (if_true_lem t.cancel_operation _ _ r.cancelled)
  ]

  run_lem :
      (chk ans : Session → Option Session) (s : Session)
      → has_error s ≡ false
      → ((t : Session) → chk s ≡ some t → Checked s t)
      → run chk (respond c ans) s ≡ (
          alone w c (chk s) >>= λ (m, t).
          if t.cancel_operation then some t else with_command t (ans t))
  unfolding run alone
  run_lem chk ans s n h = elim (Option-cases (chk s)) [
    | inl e ↦ rw e refl
    | inr (t, e) ↦ rw e (rest_lem ans s t n (h t e))
  ]

  manage_run :
      (ans : Session → Option Session) (s : Session)
      → has_error s ≡ false
      → run (check_bot w (λ r. r.has_manage_guild) lacks_manage_guild) (respond c ans) s ≡ (
          alone w c (check_bot w (λ r. r.has_manage_guild) lacks_manage_guild s) >>= λ (m, t).
          if t.cancel_operation then some t else with_command t (ans t))
  manage_run ans s n =
      run_lem (check_bot w (λ r. r.has_manage_guild) lacks_manage_guild) ans s n
        (λ t. check_bot-Checked w (λ r. r.has_manage_guild) lacks_manage_guild s t)

  moderate_run :
      (ans : Session → Option Session) (s : Session)
      → has_error s ≡ false
      → run (Cases.check_permissions w c) (respond c ans) s ≡ (
          alone w c (Cases.check_permissions w c s) >>= λ (m, t).
          if t.cancel_operation then some t else with_command t (ans t))
  unfolding Cases.check_permissions
  moderate_run ans s n =
      run_lem (Cases.check_permissions w c) ans s n
        (λ t. check_bot-Checked w (λ r. r.has_moderate_members) lacks_moderate s t)

  member_run :
      (doing : Text) (m : Member) (ans : Session → Option Session) (s : Session)
      → has_error s ≡ false
      → run (check_member w doing m) (respond c ans) s ≡ (
          alone w c (check_member w doing m s) >>= λ (x, t).
          if t.cancel_operation then some t else with_command t (ans t))
  member_run doing m ans s n =
      run_lem (check_member w doing m) ans s n (λ t. check_member-Checked w doing m s t)

  -- For a session without errors, the block of `process_response` that tells errors is dead, for every
  -- command: the command is its checks and then, if these do not cancel, its answer.
  pub wrapper_function-straight :
      (q : Simple) (s : Session) → has_error s ≡ false → wrapper_function w c q s ≡ straight q s
  unfolding wrapper_function straight check answer Warnings.clear_guild_warnings
      Warnings.clear_warnings Warnings.delete_warning Warnings.view_warnings
      Warnings.view_guild_warnings Cases.change_reason Cases.change_duration Cases.view_modcase
      Cases.view_user_modcases Cases.view_mod_modcases Cases.view_guild_modcases
      Cases.check_permissions
  wrapper_function-straight clear_guild_warnings s n =
      manage_run (Warnings.clear_guild_warnings_answer w c) s n
  wrapper_function-straight (clear_warnings m) s n =
      member_run (codes "clear warnings") m (Warnings.clear_warnings_answer w c m) s n
  wrapper_function-straight (delete_warning id) s n =
      elim (Option-cases (Warnings.delete_warning_check w c id s)) [
        | inl e ↦ rw e refl
        | inr ((m, t), e) ↦ rw e (
            rest_lem (Warnings.delete_warning_answer w c id m) s t n
              (delete_warning_check-Checked w c id s t m e))
      ]
  wrapper_function-straight (view_warnings m) s n =
      member_run (codes "view warnings") m (Warnings.view_warnings_answer w c m) s n
  wrapper_function-straight view_guild_warnings s n =
      manage_run (Warnings.view_guild_warnings_answer w c) s n
  wrapper_function-straight (change_reason id) s n =
      moderate_run (Cases.change_reason_answer w c id) s n
  wrapper_function-straight (change_duration id) s n =
      moderate_run (Cases.change_duration_answer w c id) s n
  wrapper_function-straight (view_modcase id) s n =
      moderate_run (Cases.view_modcase_answer w c id) s n
  wrapper_function-straight (view_user_modcases m) s n =
      moderate_run (Cases.view_user_modcases_answer w c m) s n
  wrapper_function-straight (view_mod_modcases m) s n =
      moderate_run (Cases.view_mod_modcases_answer w c m) s n
  wrapper_function-straight view_guild_modcases s n =
      moderate_run (Cases.view_guild_modcases_answer w c) s n

  -- A command that its checks refuse ends at once, with an error that it tells nobody: it has asked
  -- for nothing. The session began without errors and was not cancelled.
  pub refusals_untold :
      (q : Simple) (s t : Session) (m : Option Member)
      → has_error s ≡ false
      → s.cancel_operation ≡ false
      → check w c q s ≡ some (m, t)
      → t.cancel_operation ≡ true
      → (wrapper_function w c q s ≡ some t) × (has_error t ≡ true) × (t.requests ≡ s.requests)
  unfolding straight
  refusals_untold q s t m n k e r = elim (check-Checked q s t m e) [
    | inl p ↦ absurd (ground (arith, ap (λ x. x.cancel_operation) p))
    | inr x ↦ (
      wrapper_function-straight q s n ∙ rw e (if_true_lem t.cancel_operation _ _ r),
      x.told,
      x.silent,
    )
  ]
