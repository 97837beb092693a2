-- ===== src/Moderation/AuditLog/Answer.antt =====
-- What the author of src/cogs/moderation/wrappers/audit logs/audit_log_wrapper.cpp is shown.
use reactaio.Prelude.{
  ◌≡◌, ◌⊎◌, inl, inr, refl, sym, ap, ◌∙◌, Bool, true, false, List, [], ◌∷◌, ◌++◌, some, arith,
  Bool-cases, if-true, if-false, option_inj, map, length, Text, codes,
}
use reactaio.Helpers.{join_with_limit}
use reactaio.Moderation.World.{World, Command, Session, command_insert, paginate}
use reactaio.Moderation.Roles.{top_role, get_permitted_roles}
use reactaio.Moderation.Session.{
  has_error, log_command_invoke, reply_with, max_embed_chars, error_embed,
}
use reactaio.Moderation.Checks.Allowed.{>>=-eq-some}
use reactaio.Moderation.GuildBans.{is_refused, judge}
use reactaio.Moderation.GuildBans.Answer.{judge-kept, logged_requests}
use reactaio.Moderation.AuditLog.{
  AuditLog, bot_lacks, check_permissions, view_audit_log, entry_texts, process_response,
  wrapper_function,
}

judge-silent :
    (lacks : Text) (bot_can refused : Bool) (s : Session)
    → (judge lacks bot_can refused s).requests ≡ s.requests
unfolding judge
judge-silent lacks true false s = refl
judge-silent lacks true true s = refl
judge-silent lacks false false s = refl
judge-silent lacks false true s = refl

module _ (w : World) (c : Command) where
  check_permissions-kept :
      (s t : Session)
      → check_permissions w c s ≡ some t
      → ((t.cancel_operation ≡ true) × (t.requests ≡ s.requests)) ⊎ (t ≡ s)
  unfolding check_permissions
  check_permissions-kept s t e =
      let (bot, _, e1) = >>=-eq-some (top_role w w.bot_member) _ e in
      let (author, _, e2) = >>=-eq-some (top_role w c.author) _ e1 in
      let (bot_top, _, e3) = >>=-eq-some (w.role_at bot) _ e2 in
      let (roles, _, e4) = >>=-eq-some (get_permitted_roles w view_audit_log) _ e3 in
      let (author_top, _, e5) = >>=-eq-some (w.role_at author) _ e4 in
      let no = is_refused roles author author_top.has_view_audit_log in
      let same = sym (option_inj e5) in
      elim (Bool-cases (judge bot_lacks bot_top.has_view_audit_log no s).cancel_operation) [
        | inl k ↦ inl (
          ap (λ x. x.cancel_operation) same ∙ k,
          ap (λ x. x.requests) same ∙ judge-silent bot_lacks bot_top.has_view_audit_log no s,
        )
        | inr k ↦ inr (same ∙ judge-kept bot_lacks bot_top.has_view_audit_log no s k)
      ]

  process_blank :
      (g g' : AuditLog)
      → has_error g.base ≡ false
      → g.audit_entries ≡ []
      → c.interaction ≡ true
      → process_response w c g ≡ some g'
      → g'.base.requests
        ≡ (g.base.requests ++ command_insert view_audit_log ∷ []) ++ paginate true [] ∷ []
  unfolding process_response reply_with join_with_limit entry_texts
  process_blank g g' n b i e =
      let (s, run, e1) =
        >>=-eq-some (log_command_invoke view_audit_log g.base) _
          (if-false (has_error g.base) _ _ n e) in
      let (texts, told, e2) = >>=-eq-some (entry_texts w g.audit_entries) _ e1 in
      let none_told : texts ≡ [] = sym (option_inj (ap (λ x. entry_texts w x) (sym b) ∙ told)) in
      let shown = λ (names : List Text).
        let split = join_with_limit names max_embed_chars in
        let title = codes "Error while fetching guild audit logs: " in
        (reply_with true (length split) (map (error_embed title) split) s).requests in
      ap (λ x. x.base.requests) (sym (option_inj (if-true c.interaction _ _ i e2)))
      ∙ (ap shown none_told
          ∙ ap (λ x. x ++ paginate true [] ∷ []) (logged_requests w c view_audit_log g.base s run))

  -- An audit log command with an interaction, in a wrapper without errors and entries, that returns
  -- was refused, and then it has asked for nothing, so that nobody is told; or it has logged itself
  -- and sent a paginator without pages, and has asked for no entry.
  pub answers_unfetched :
      (g g' : AuditLog)
      → has_error g.base ≡ false
      → g.audit_entries ≡ []
      → c.interaction ≡ true
      → wrapper_function w c g ≡ some g'
      → ((g'.base.cancel_operation ≡ true) × (g'.base.requests ≡ g.base.requests))
        ⊎ (g'.base.requests
            ≡ (g.base.requests ++ command_insert view_audit_log ∷ []) ++ paginate true [] ∷ [])
  unfolding wrapper_function has_error
  answers_unfetched g g' n b i e =
      let (s, run, rest) = >>=-eq-some (check_permissions w c g.base) _ e in
      let kept = check_permissions-kept g.base s run in
      elim (Bool-cases s.cancel_operation) [
        | inl k ↦
            let same = sym (option_inj (if-true s.cancel_operation _ _ k rest)) in
            inl (
              ap (λ x. x.base.cancel_operation) same ∙ k,
              ap (λ x. x.base.requests) same
                  ∙ elim kept [ inl (_, q) ↦ q | inr q ↦ ap (λ x. x.requests) q ],
            )
        | inr k ↦ elim kept [
          | inl (q, _) ↦ absurd (ground (arith, sym k ∙ q))
          | inr q ↦ inr (
              process_blank (record g { base = s }) g' (ap has_error q ∙ n) b i
                (if-false s.cancel_operation _ _ k rest)
              ∙ ap
                  (λ (x : Session).
                    (x.requests ++ command_insert view_audit_log ∷ []) ++ paginate true [] ∷ [])
                  q)
        ]
      ]
