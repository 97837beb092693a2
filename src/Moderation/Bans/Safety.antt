-- ===== src/Moderation/Bans/Safety.antt =====
-- That the answers of the bans of src/cogs/moderation/wrappers only report.
use reactaio.Prelude.{
  arith, ◌≡◌, refl, sym, ap, Bool, true, false, List, [], ◌∷◌, Option, some, Text, map, Bool-cases,
  Option-cases, inl, inr, if-true, if-false, if-none, option_inj,
}
use reactaio.Helpers.{join_with_limit}
use reactaio.Algorithm.{set_difference}
use reactaio.Moderation.World.{
  User, World, Command, Embed, Session, user_key, message_create, execute_webhook,
}
use reactaio.Moderation.Checks.Allowed.{>>=-eq-some}
use reactaio.Moderation.Session.{has_error, request, error_embed, max_embed_chars}
use reactaio.Moderation.Session.Reports.{
  Reports, Reports-refl, Reports-trans, Reports-request, Reports-some, reply_with-Reports,
  send_errors-none, invoke_error_webhook-Reports, log_command_invoke-Reports,
}
use reactaio.Moderation.Hybrid.{Hybrid, are_all_errors, tell, report_invalid}
use reactaio.Moderation.Bans.{
  LogColumn, Kind, respond_errors, log_all, log_embed, respond_banned, send_answer, finish,
  process_response,
}

-- A hybrid wrapper that has only made further reports.
abbrev pub ReportsBase : Hybrid → Hybrid → Type 0
ReportsBase h h' = Reports h.base h'.base

pub ReportsBase-some :
    (h : Hybrid) (s : Session) (h' : Hybrid)
    → Reports h.base s
    → ◌≡◌ {A = Option Hybrid} (some (record h { base = s })) (some h')
    → ReportsBase h h'
ReportsBase-some h s h' r e = rw (ap (λ x. x.base) (sym (option_inj e))) r

ReportsBase-pair :
    {embeds : List Embed} {embeds' : List Embed} (h t h' : Hybrid)
    → ReportsBase h t
    → ◌≡◌ {A = Option (List Embed × Hybrid)} (some (embeds, t)) (some (embeds', h'))
    → ReportsBase h h'
ReportsBase-pair {embeds} {embeds'} h t h' r e = rw (ap (λ x. (x.1).base) (sym (option_inj e))) r

module _ (w : World) (c : Command) where
  pub tell-Reports :
      (asks_itself : Bool) (texts : List Text) (title : Text) (s s' : Session)
      → tell asks_itself w c texts title s ≡ some s'
      → Reports s s'
  unfolding tell
  tell-Reports true texts title s s' h =
      absurd (ground (arith, send_errors-none w c (map (error_embed title) texts) s, h))
  tell-Reports false texts title s s' h = invoke_error_webhook-Reports w c s s' h

  pub report_invalid-ReportsBase :
      (asks_itself : Bool) (title : Text) (h h' : Hybrid)
      → report_invalid asks_itself w c title h ≡ some h'
      → ReportsBase h h'
  unfolding report_invalid
  report_invalid-ReportsBase asks_itself title h h' e = elim (Bool-cases c.interaction) [
    | inl i ↦
        ReportsBase-some h _ h' (reply_with-Reports w c true _ _ h.base)
          (if-true c.interaction _ _ i e)
    | inr i ↦
        let (s, run, rest) =
          >>=-eq-some (tell asks_itself w c _ title h.base) _ (if-false c.interaction _ _ i e) in
        ReportsBase-some h s h' (tell-Reports asks_itself _ title h.base s run) rest
  ]

  module _ (k : Kind) where
    respond_errors-ReportsBase :
        (h h' : Hybrid) (embeds : List Embed)
        → respond_errors w c k h ≡ some (embeds, h')
        → ReportsBase h h'
    unfolding respond_errors
    respond_errors-ReportsBase h h' embeds e = elim (Bool-cases (has_error h.base)) [
      | inr i ↦ ReportsBase-pair h h h' (Reports-refl h.base) (if-false (has_error h.base) _ _ i e)
      | inl i ↦
          let e1 = if-true (has_error h.base) _ _ i e in
          elim (Bool-cases c.interaction) [
            | inl j ↦
                ReportsBase-pair h _ h' (reply_with-Reports w c (are_all_errors h) _ _ h.base)
                  (if-true c.interaction _ _ j e1)
            | inr j ↦
                let (s, run, rest) =
                  >>=-eq-some
                    (tell k.asks_itself w c (join_with_limit h.base.errors max_embed_chars)
                      k.error_title h.base)
                    _ (if-false c.interaction _ _ j e1) in
                ReportsBase-pair h (record h { base = s }) h'
                  (tell-Reports k.asks_itself _ k.error_title h.base s run) rest
          ]
    ]

    log_all-Reports :
        (users : List User) (logs : List LogColumn) (s s' : Session)
        → log_all w c k users logs s ≡ some s'
        → Reports s s'
    unfolding log_all
    log_all-Reports users [] s s' e = Reports-some s s s' (Reports-refl s) e
    log_all-Reports users (l ∷ logs) s s' e = elim (Option-cases (w.webhooks l.column)) [
      | inl n ↦ log_all-Reports users logs s s' (rw (n, log_all) at e)
      | inr (url, n) ↦
          let (embed, _, rest) =
            >>=-eq-some (log_embed w c k s.duration l users) _ (rw (n, log_all) at e) in
          let t = request (execute_webhook url (embed ∷ [])) s in
          Reports-trans s t s'
            (Reports-request (execute_webhook url (embed ∷ [])) s t refl refl refl refl)
            (log_all-Reports users logs t s' rest)
    ]

    respond_banned-ReportsBase :
        (embeds embeds' : List Embed) (h h' : Hybrid)
        → respond_banned w c k embeds h ≡ some (embeds', h')
        → ReportsBase h h'
    unfolding respond_banned
    respond_banned-ReportsBase embeds embeds' h h' e = elim (Bool-cases (are_all_errors h)) [
      | inl i ↦ ReportsBase-pair h h h' (Reports-refl h.base) (if-true (are_all_errors h) _ _ i e)
      | inr i ↦
          let (users, _, e1) =
            >>=-eq-some (set_difference user_key w.past_users h.users h.users_with_errors []) _
              (if-false (are_all_errors h) _ _ i e) in
          let (_, e2) = if-none h.base.moved e1 in
          let (s, run, rest) = >>=-eq-some (log_all w c k users k.logs h.base) _ e2 in
          ReportsBase-pair h (record h { base = s }) h' (log_all-Reports users k.logs h.base s run)
            rest
    ]

    finish-ReportsBase :
        (embeds : List Embed) (h h' : Hybrid) → finish c k embeds h ≡ some h' → ReportsBase h h'
    unfolding finish send_answer
    finish-ReportsBase embeds h h' e =
        let (s, run, rest) = >>=-eq-some (send_answer c k embeds h) _ e in
        ReportsBase-some h s h'
          (elim (Bool-cases c.interaction) [
            | inl i ↦
                Reports-trans h.base _ s (reply_with-Reports w c _ _ embeds h.base)
                  (log_command_invoke-Reports k.name _ s (if-true c.interaction _ _ i run))
            | inr i ↦
                let (_, e1) = if-none h.base.moved (if-false c.interaction _ _ i run) in
                Reports-some h.base _ s
                  (Reports-request (message_create embeds) h.base _ refl refl refl refl) e1
          ])
          rest

    -- The answer only reports.
    pub process_response-ReportsBase :
        (h h' : Hybrid) → process_response w c k h ≡ some h' → ReportsBase h h'
    unfolding process_response
    process_response-ReportsBase h h' e =
        let (_, e0) = if-none h.base.moved e in
        let ((embeds, h1), run1, e1) = >>=-eq-some (respond_errors w c k h) _ e0 in
        let ((all_embeds, h2), run2, e2) = >>=-eq-some (respond_banned w c k embeds h1) _ e1 in
        Reports-trans h.base h1.base h'.base (respond_errors-ReportsBase h h1 embeds run1) (
          Reports-trans h1.base h2.base h'.base
            (respond_banned-ReportsBase embeds all_embeds h1 h2 run2)
            (finish-ReportsBase all_embeds h2 h' e2))
