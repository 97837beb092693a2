-- ===== src/Moderation/Kick/Safety.antt =====
-- Whom the kick command of src/cogs/moderation/wrappers/kick/kick_wrapper.cpp kicks.
use reactaio.Prelude.{
  if-none, if-true, if-false, option_inj, ◌≡◌, ◌⊎◌, refl, sym, ap, ◌∙◌, true, false, ltb, ◌&&◌,
  ◌==◌, List, [], ◌∷◌, ◌++◌, some, Bool-cases, Option-cases, inl, inr, Text, map, length, codes,
}
use reactaio.Helpers.{join_with_limit}
use reactaio.Algorithm.{set_difference, set_symmetric_difference}
use reactaio.Moderation.World.{
  World, Command, Member, member_key, Embed, Session, edit_response, paginate, message_create,
  execute_webhook,
}
use reactaio.Moderation.Checks.Allowed.{>>=-eq-some}
use reactaio.Moderation.Policy.Granted.{IsGranted, check_permissions_sound, check_permissions-acts}
use reactaio.Moderation.Session.{invoke_error_webhook, max_embed_chars, are_all_errors, has_error}
use reactaio.Moderation.Session.Acts.{kicked, acts, acts-append, kick_target, kick_target-IsSilent}
use reactaio.Moderation.Session.Reports.{
  Reports-kicked, Reports, Reports-refl, Reports-if, Reports-trans, Reports-request, Reports-some,
  Reports-pair, log_command_invoke-Reports, invoke_error_webhook-Reports,
}
use reactaio.Moderation.Kick.{
  policy, kick_name, check_permissions, kick_requests, process_kicks, respond_errors, log_embed,
  log_to, respond_kicked, respond, process_response, wrapper_function,
}

module _ (w : World) (c : Command) where
  -- The requests of `process_kicks` kick each member once, in order.
  pub kicked-kick_requests :
      (ms : List Member) → kicked (kick_requests c ms) ≡ map (λ m. m.user_id) ms
  unfolding kicked acts kick_requests
  kicked-kick_requests [] = refl
  kicked-kick_requests (m ∷ ms) = elim (Bool-cases c.interaction) [
    | inl e ↦ rw (e, kick_requests) (ap (λ x. m.user_id ∷ x) (kicked-kick_requests ms))
    | inr e ↦ rw (e, kick_requests) (ap (λ x. m.user_id ∷ x) (kicked-kick_requests ms))
  ]

  pub process_kicks-kicked :
      (s : Session)
      → kicked (process_kicks c s).requests ≡ kicked s.requests ++ map (λ m. m.user_id) s.members
  unfolding process_kicks kicked
  process_kicks-kicked s =
      acts-append kick_target s.requests (kick_requests c s.members)
      ∙ ap (λ x. kicked s.requests ++ x) (kicked-kick_requests s.members)

  log_to-Reports :
      (column : Text) (embed : Embed) (s : Session) → Reports s (log_to w column embed s)
  unfolding log_to
  log_to-Reports column embed s = elim (Option-cases (w.webhooks column)) [
    | inl e ↦ rw (e, log_to) (Reports-refl s)
    | inr (url, e) ↦
        rw (e, log_to) (Reports-request (execute_webhook url (embed ∷ [])) s _ refl refl refl refl)
  ]

  respond_errors-Reports :
      (s s' : Session) (embeds : List Embed)
      → respond_errors w c s ≡ some (embeds, s')
      → Reports s s'
  unfolding respond_errors
  respond_errors-Reports s s' embeds h =
      let many = are_all_errors s && ltb 1 (length (join_with_limit s.errors max_embed_chars)) in
      let one = are_all_errors s && length (join_with_limit s.errors max_embed_chars) == 1 in
      elim (Bool-cases (has_error s)) [
        | inr e ↦ Reports-pair [] embeds s s s' (Reports-refl s) (if-false (has_error s) _ _ e h)
        | inl e ↦
            let h1 = if-true (has_error s) _ _ e h in
            elim (Bool-cases c.interaction) [
              | inr f ↦
                  let (t, run, rest) =
                    >>=-eq-some (invoke_error_webhook w c s) _ (if-false c.interaction _ _ f h1) in
                  Reports-pair _ embeds s t s' (invoke_error_webhook-Reports w c s t run) rest
              | inl f ↦
                  let h2 = if-true c.interaction _ _ f h1 in
                  elim (Bool-cases one) [
                    | inl g ↦
                        Reports-pair _ embeds s _ s'
                          (Reports-request (edit_response true _) s _ refl refl refl refl)
                          (if-true one _ _ g h2)
                    | inr g ↦
                        let h3 = if-false one _ _ g h2 in
                        elim (Bool-cases many) [
                          | inl i ↦
                              Reports-pair _ embeds s _ s'
                                (Reports-request (paginate true _) s _ refl refl refl refl)
                                (if-true many _ _ i h3)
                          | inr i ↦
                              Reports-pair _ embeds s s s' (Reports-refl s) (if-false many _ _ i h3)
                        ]
                  ]
            ]
      ]

  respond_kicked-Reports :
      (embeds all_embeds : List Embed) (s s' : Session)
      → respond_kicked w c embeds s ≡ some (all_embeds, s')
      → Reports s s'
  unfolding respond_kicked
  respond_kicked-Reports embeds all_embeds s s' h = elim (Bool-cases (are_all_errors s)) [
    | inl e ↦
        Reports-pair embeds all_embeds s s s' (Reports-refl s) (if-true (are_all_errors s) _ _ e h)
    | inr e ↦
        let (some_kicked, _, h1) =
          >>=-eq-some (set_difference member_key w.past_members s.members s.members_with_errors [])
            _ (if-false (are_all_errors s) _ _ e h) in
        let (all_kicked, _, h2) =
          >>=-eq-some
            (set_symmetric_difference member_key w.past_members s.members s.members_with_errors
              some_kicked)
            _ h1 in
        let (_, h4) = if-none s.moved h2 in
        let (_, h3) = if-none w.lacks_webhooks h4 in
        let t1 = log_to w (codes "member_kick") (log_embed c all_kicked) s in
        let t2 = log_to w (codes "modlog") (log_embed c all_kicked) t1 in
        Reports-pair _ all_embeds s _ s'
          (Reports-trans s t2 _
            (Reports-trans s t1 t2 (log_to-Reports _ _ s) (log_to-Reports _ _ t1))
            (log_to-Reports (codes "public_modlog") (log_embed c all_kicked) t2))
          h3
  ]

  respond-Reports :
      (embeds : List Embed) (s s' : Session) → respond c embeds s ≡ some s' → Reports s s'
  unfolding respond
  respond-Reports embeds s s' h = elim (Bool-cases c.interaction) [
    | inl e ↦
        Reports-trans s _ s'
          (Reports-if (ltb 2 (length embeds)) s _ _
            (Reports-request (paginate (are_all_errors s && has_error s) embeds) s _ refl refl refl
              refl)
            (Reports-request (edit_response (are_all_errors s && has_error s) embeds) s _ refl refl
              refl refl))
          (log_command_invoke-Reports kick_name _ s' (if-true c.interaction _ _ e h))
    | inr e ↦
        let (_, h1) = if-none s.moved (if-false c.interaction _ _ e h) in
        Reports-some s _ s' (Reports-request (message_create embeds) s _ refl refl refl refl) h1
  ]

  pub process_response-Reports : (s s' : Session) → process_response w c s ≡ some s' → Reports s s'
  unfolding process_response
  process_response-Reports s s' h =
      let (_, h0) = if-none s.moved h in
      let ((embeds, s1), run1, h1) = >>=-eq-some (respond_errors w c s) _ h0 in
      let ((all_embeds, s2), run2, h2) = >>=-eq-some (respond_kicked w c embeds s1) _ h1 in
      Reports-trans s s1 s' (respond_errors-Reports s s1 embeds run1) (
        Reports-trans s1 s2 s' (respond_kicked-Reports embeds all_embeds s1 s2 run2)
          (respond-Reports all_embeds s2 s' h2))

  -- A kick command that begins with no cancellation and no kick, and returns, has refused, and then
  -- nobody is kicked, or it is granted for its members, and then each of them is kicked, once and in
  -- order.
  pub wrapper_function_lem :
      (s s' : Session)
      → s.cancel_operation ≡ false
      → kicked s.requests ≡ []
      → wrapper_function w c s ≡ some s'
      → ((s'.cancel_operation ≡ true) × (kicked s'.requests ≡ []))
        ⊎ (IsGranted w c policy s.members × (kicked s'.requests ≡ map (λ m. m.user_id) s.members))
  unfolding wrapper_function kicked
  wrapper_function_lem s s' k n h =
      let (t, run, rest) = >>=-eq-some (check_permissions w c s) _ h in
      elim (Bool-cases t.cancel_operation) [
        | inl e ↦
            let same : t ≡ s' = option_inj (if-true t.cancel_operation _ _ e rest) in
            inl (
              ap (λ x. x.cancel_operation) (sym same) ∙ e,
              ap (λ x. kicked x.requests) (sym same)
                  ∙ (check_permissions-acts w c policy kick_target s t kick_target-IsSilent run
                      ∙ n),
            )
        | inr e ↦
            let (same, granted) = check_permissions_sound w c policy s t run e in
            let after =
              process_response-Reports (process_kicks c t) s'
                (if-false t.cancel_operation _ _ e rest) in
            inr (
              granted,
              Reports-kicked (process_kicks c t) s' after
                  ∙ (ap (λ x. kicked (process_kicks c x).requests) same
                      ∙ (process_kicks-kicked s ∙ rw n refl)),
            )
      ]
