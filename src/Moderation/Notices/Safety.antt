-- ===== src/Moderation/Notices/Safety.antt =====
-- That the answers of the mute, warn and unmute commands of src/cogs/moderation/wrappers only report,
-- and when they come to their end.
use reactaio.Prelude.{
  ◌+◌, ◌≡◌, ◌⊎◌, refl, sym, ap, ◌∙◌, true, false, ◌&&◌, List, [], ◌∷◌, some, ◌==◌, length,
  length-append, Bool-cases, Option-cases, inl, inr, if-true, if-false, if-none, option_inj,
  if◌then◌else◌, if_true_lem, if_false_lem, arith, ℕ,
}
use reactaio.Helpers.{join_with_limit}
use reactaio.Algorithm.{set_difference}
use reactaio.Moderation.World.{
  Member, World, Command, Embed, Session, member_key, message_create, execute_webhook,
}
use reactaio.Moderation.Checks.Allowed.{>>=-eq-some}
use reactaio.Moderation.Session.{
  has_error, are_all_errors, reply_with, log_command_invoke, request, max_embed_chars, error_embed,
}
use reactaio.Moderation.Session.Reports.{
  Reports, Reports-refl, Reports-trans, Reports-request, Reports-some, Reports-pair,
  reply_with-Reports, log_command_invoke-Reports,
}
use reactaio.Moderation.Hybrid.{tell}
use reactaio.Moderation.Bans.Safety.{tell-Reports}
use reactaio.Moderation.Bans.Faults.{reply_with-moved, length-map}
use reactaio.Moderation.Notices.{
  LogColumn, Kind, respond_errors, log_embed, log_all, announcement, respond_done, finish,
  process_response,
}

module _ (w : World) (c : Command) (k : Kind) where
  respond_errors-Reports :
      (s s' : Session) (embeds : List Embed)
      → respond_errors w c k s ≡ some (embeds, s')
      → Reports s s'
  unfolding respond_errors
  respond_errors-Reports s s' embeds e = elim (Bool-cases (has_error s)) [
    | inr i ↦ Reports-pair [] embeds s s s' (Reports-refl s) (if-false (has_error s) _ _ i e)
    | inl i ↦
        let e1 = if-true (has_error s) _ _ i e in
        elim (Bool-cases c.interaction) [
          | inl j ↦ Reports-pair _ embeds s s s' (Reports-refl s) (if-true c.interaction _ _ j e1)
          | inr j ↦
              let (t, run, rest) =
                >>=-eq-some
                  (tell k.asks_itself w c (join_with_limit s.errors max_embed_chars) k.error_title
                    s)
                  _ (if-false c.interaction _ _ j e1) in
              Reports-pair [] embeds s t s' (tell-Reports w c k.asks_itself _ k.error_title s t run)
                rest
        ]
  ]

  log_all-Reports :
      (members : List Member) (logs : List LogColumn) (s s' : Session)
      → log_all w c members logs s ≡ some s'
      → Reports s s'
  unfolding log_all
  log_all-Reports members [] s s' e = Reports-some s s s' (Reports-refl s) e
  log_all-Reports members (l ∷ logs) s s' e = elim (Option-cases (w.webhooks l.column)) [
    | inl n ↦ log_all-Reports members logs s s' (rw (n, log_all) at e)
    | inr (url, n) ↦
        let (embed, _, rest) = >>=-eq-some (log_embed c l members) _ (rw (n, log_all) at e) in
        let t = request (execute_webhook url (embed ∷ [])) s in
        Reports-trans s t s'
          (Reports-request (execute_webhook url (embed ∷ [])) s t refl refl refl refl)
          (log_all-Reports members logs t s' rest)
  ]

  respond_done-Reports :
      (embeds embeds' : List Embed) (s s' : Session)
      → respond_done w c k embeds s ≡ some (embeds', s')
      → Reports s s'
  unfolding respond_done
  respond_done-Reports embeds embeds' s s' e = elim (Bool-cases (are_all_errors s)) [
    | inl i ↦
        Reports-pair embeds embeds' s s s' (Reports-refl s) (if-true (are_all_errors s) _ _ i e)
    | inr i ↦
        let (members, _, e1) =
          >>=-eq-some (set_difference member_key w.past_members s.members s.members_with_errors [])
            _ (if-false (are_all_errors s) _ _ i e) in
        let (_, throws) = if-none s.moved e1 in
        let (_, e2) = if-none (k.needs_row && w.lacks_webhooks) throws in
        let (t, run, rest) = >>=-eq-some (log_all w c members k.logs s) _ e2 in
        Reports-pair _ embeds' s t s' (log_all-Reports members k.logs s t run) rest
  ]

  finish-Reports :
      (embeds : List Embed) (s s' : Session) → finish c k embeds s ≡ some s' → Reports s s'
  unfolding finish
  finish-Reports embeds s s' e = elim (Bool-cases c.interaction) [
    | inl i ↦
        Reports-trans s _ s' (reply_with-Reports w c _ _ embeds s)
          (log_command_invoke-Reports k.name _ s' (if-true c.interaction _ _ i e))
    | inr i ↦
        let (_, e1) = if-none s.moved (if-false c.interaction _ _ i e) in
        Reports-some s _ s' (Reports-request (message_create embeds) s _ refl refl refl refl) e1
  ]

  -- The answer only reports.
  pub process_response-Reports :
      (s s' : Session) → process_response w c k s ≡ some s' → Reports s s'
  unfolding process_response
  process_response-Reports s s' e =
      let (_, e0) = if-none s.moved e in
      let ((embeds, s1), run1, e1) = >>=-eq-some (respond_errors w c k s) _ e0 in
      let ((all_embeds, s2), run2, e2) = >>=-eq-some (respond_done w c k embeds s1) _ e1 in
      Reports-trans s s1 s' (respond_errors-Reports s s1 embeds run1) (
        Reports-trans s1 s2 s' (respond_done-Reports embeds all_embeds s1 s2 run2)
          (finish-Reports all_embeds s2 s' e2))

  finish_one :
      (embeds : List Embed) (s s' : Session)
      → c.interaction ≡ true
      → finish c k embeds s ≡ some s'
      → (length embeds == 1) ≡ true
  unfolding finish log_command_invoke
  finish_one embeds s s' i e =
      let hidden = are_all_errors s && has_error s in
      let (m, _) =
        if-none (reply_with hidden (length embeds) embeds s).moved
          (if-true c.interaction _ _ i e) in
      reply_with-moved hidden (length embeds) embeds s m

  respond_done_embeds :
      (embeds embeds' : List Embed) (s s' : Session)
      → respond_done w c k embeds s ≡ some (embeds', s')
      → ((are_all_errors s ≡ true) × (embeds' ≡ embeds))
        ⊎ ((are_all_errors s ≡ false) × (length embeds' ≡ length embeds + 1))
  unfolding respond_done
  respond_done_embeds embeds embeds' s s' e = elim (Bool-cases (are_all_errors s)) [
    | inl a ↦ inl (a, sym (ap (λ x. x.0) (option_inj (if-true (are_all_errors s) _ _ a e))))
    | inr a ↦
        let (members, _, e1) =
          >>=-eq-some (set_difference member_key w.past_members s.members s.members_with_errors [])
            _ (if-false (are_all_errors s) _ _ a e) in
        let (_, throws) = if-none s.moved e1 in
        let (_, e2) = if-none (k.needs_row && w.lacks_webhooks) throws in
        let (t, _, e3) = >>=-eq-some (log_all w c members k.logs s) _ e2 in
        inr (
          a,
          ap length (sym (ap (λ x. x.0) (option_inj e3)))
              ∙ length-append embeds (announcement c k members ∷ []),
        )
  ]

  respond_errors_chunks :
      (s s' : Session) (embeds : List Embed)
      → c.interaction ≡ true
      → respond_errors w c k s ≡ some (embeds, s')
      → (s' ≡ s)
        × (length embeds
            ≡ (if has_error s then length (join_with_limit s.errors max_embed_chars) else 0))
  unfolding respond_errors
  respond_errors_chunks s s' embeds i e = elim (Bool-cases (has_error s)) [
    | inr f ↦
        let same = option_inj (if-false (has_error s) _ _ f e) in
        (
          sym (ap (λ x. x.1) same),
          ap (λ x. length x.0) (sym same) ∙ sym (if_false_lem (has_error s) _ _ f),
        )
    | inl f ↦
        let same = option_inj (if-true c.interaction _ _ i (if-true (has_error s) _ _ f e)) in
        (
          sym (ap (λ x. x.1) same),
          ap (λ x. length x.0) (sym same)
              ∙ (length-map (error_embed k.error_title) (join_with_limit s.errors max_embed_chars)
                  ∙ sym (if_true_lem (has_error s) _ _ f)),
        )
  ]

  -- With an interaction, an answer that comes to its end has one embed: the chunks of the errors and
  -- the announcement, which is made unless all members have errors, are one together.
  pub process_response_chunks :
      (s s' : Session)
      → c.interaction ≡ true
      → process_response w c k s ≡ some s'
      → (if has_error s then length (join_with_limit s.errors max_embed_chars) else 0)
          + (if are_all_errors s then 0 else 1)
        ≡ 1
  unfolding process_response
  process_response_chunks s s' i e =
      let (_, e0) = if-none s.moved e in
      let ((embeds, s1), run, e1) = >>=-eq-some (respond_errors w c k s) _ e0 in
      let ((all_embeds, s2), runs, e2) = >>=-eq-some (respond_done w c k embeds s1) _ e1 in
      let one = finish_one all_embeds s2 s' i e2 in
      let (same, count) = respond_errors_chunks s s1 embeds i run in
      elim (respond_done_embeds embeds all_embeds s1 s2 runs) [
        | inl (a, q) ↦
            let b = if_true_lem {A = ℕ} (are_all_errors s) 0 1 (ap are_all_errors (sym same) ∙ a) in
            let n : length all_embeds ≡ length embeds = ap length q in
            let m : length all_embeds ≡ 1 = ground (arith, one) in omega (arith, b, n, m, count)
        | inr (a, q) ↦
            let b =
              if_false_lem {A = ℕ} (are_all_errors s) 0 1 (ap are_all_errors (sym same) ∙ a) in
            let m : length all_embeds ≡ 1 = ground (arith, one) in omega (arith, b, q, m, count)
      ]
