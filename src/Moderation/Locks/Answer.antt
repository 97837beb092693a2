-- ===== src/Moderation/Locks/Answer.antt =====
-- That the answers of the lock and unlock commands of src/cogs/moderation/wrappers/(un)lock only
-- report.
use reactaio.Prelude.{
  ℕ, ◌≡◌, refl, sym, ap, ◌∙◌, Bool, List, [], ◌∷◌, Option, none, some, arith, Bool-cases,
  Option-cases, inl, inr, if-none, if-true, if-false, option_inj, length, Text, codes,
}
use reactaio.Algorithm.{set_difference}
use reactaio.Moderation.World.{
  channel_key, World, Command, Embed, Request, Session, channel_edit_permissions, execute_webhook,
  message_create,
}
use reactaio.Moderation.Checks.Allowed.{>>=-eq-some}
use reactaio.Moderation.Session.{has_error, invoke_error_webhook}
use reactaio.Moderation.Session.Acts.{acts, IsSilent}
use reactaio.Moderation.Session.Reports.{
  Reports, Reports-acts, Reports-refl, Reports-trans, Reports-request, Reports-some, Reports-pair,
  reply_with-Reports, invoke_error_webhook-Reports, log_command_invoke-Reports,
}
use reactaio.Moderation.Locks.{
  Locks, Kind, respond_errors, log_embed, log_to, respond_done, finish, are_all_errors,
  process_response,
}

abbrev pub change_target : Request → Option ℕ
change_target (channel_edit_permissions id _) = some id
change_target _ = none

pub change_target-IsSilent : IsSilent change_target
change_target-IsSilent (channel_edit_permissions _ _) h = absurd (ground arith)
change_target-IsSilent _ h = refl

-- The channels whose permissions the requests change, in order.
unfoldable pub changed : List Request → List ℕ
unfolding acts
changed = acts change_target

module _ (w : World) (c : Command) where
  pub finish-Reports :
      (name : Text) (hidden : Bool) (embeds : List Embed) (s s' : Session)
      → finish c name hidden embeds s ≡ some s'
      → Reports s s'
  unfolding finish
  finish-Reports name hidden embeds s s' e =
      let (_, e1) = if-none s.moved e in
      elim (Bool-cases c.interaction) [
        | inl i ↦
            Reports-trans s _ s' (reply_with-Reports w c hidden (length embeds) embeds s)
              (log_command_invoke-Reports name _ s' (if-true c.interaction _ _ i e1))
        | inr i ↦
            Reports-some s _ s' (Reports-request (message_create embeds) s _ refl refl refl refl)
              (if-false c.interaction _ _ i e1)
      ]

module _ (w : World) (c : Command) (k : Kind) where
  respond_errors-Reports :
      (l : Locks) (s' : Session) (embeds : List Embed)
      → respond_errors w c k l ≡ some (embeds, s')
      → Reports l.base s'
  unfolding respond_errors
  respond_errors-Reports l s' embeds e = elim (Bool-cases (has_error l.base)) [
    | inr i ↦
        Reports-pair [] embeds l.base l.base s' (Reports-refl l.base)
          (if-false (has_error l.base) _ _ i e)
    | inl i ↦
        let e1 = if-true (has_error l.base) _ _ i e in
        elim (Bool-cases c.interaction) [
          | inl j ↦
              Reports-pair _ embeds l.base _ s'
                (reply_with-Reports w c (are_all_errors l) _ _ l.base)
                (if-true c.interaction _ _ j e1)
          | inr j ↦
              let (t, run, rest) =
                >>=-eq-some (invoke_error_webhook w c l.base) _ (if-false c.interaction _ _ j e1) in
              Reports-pair _ embeds l.base t s' (invoke_error_webhook-Reports w c l.base t run) rest
        ]
  ]

  log_to-Reports :
      (column : Text) (embed : Embed) (s : Session) → Reports s (log_to w column embed s)
  unfolding log_to
  log_to-Reports column embed s = elim (Option-cases (w.webhooks column)) [
    | inl e ↦ rw (e, log_to) (Reports-refl s)
    | inr (url, e) ↦
        rw (e, log_to) (Reports-request (execute_webhook url (embed ∷ [])) s _ refl refl refl refl)
  ]

  respond_done-Reports :
      (l : Locks) (s s' : Session) (embeds all_embeds : List Embed)
      → respond_done w c k l embeds s ≡ some (all_embeds, s')
      → Reports s s'
  unfolding respond_done
  respond_done-Reports l s s' embeds all_embeds e = elim (Bool-cases (are_all_errors l)) [
    | inl i ↦
        Reports-pair embeds all_embeds s s s' (Reports-refl s) (if-true (are_all_errors l) _ _ i e)
    | inr i ↦
        let (done, _, e1) =
          >>=-eq-some
            (set_difference channel_key w.past_channels l.channels l.channels_with_errors []) _
            (if-false (are_all_errors l) _ _ i e) in
        let (_, e2) = if-none s.moved e1 in
        let log = log_embed c k done in
        let t1 = log_to w (codes "channel_overwrite_update") log s in
        let t2 = log_to w (codes "modlog") log t1 in
        Reports-pair _ all_embeds s _ s'
          (Reports-trans s t2 _
            (Reports-trans s t1 t2 (log_to-Reports _ log s) (log_to-Reports _ log t1))
            (log_to-Reports (codes "public_modlog") log t2))
          e2
  ]

  pub process_response_keeps :
      (l l' : Locks)
      → process_response w c k l ≡ some l'
      → (changed l'.base.requests ≡ changed l.base.requests) × (l'.channels ≡ l.channels)
  unfolding process_response changed
  process_response_keeps l l' e =
      let (_, e0) = if-none l.base.moved e in
      let ((embeds, s1), run1, e1) = >>=-eq-some (respond_errors w c k l) _ e0 in
      let ((all_embeds, s2), run2, e2) = >>=-eq-some (respond_done w c k l embeds s1) _ e1 in
      let (s3, run3, e3) = >>=-eq-some (finish c k.name _ all_embeds s2) _ e2 in
      let reports = Reports-trans l.base s1 s3 (respond_errors-Reports l s1 embeds run1) (
        Reports-trans s1 s2 s3 (respond_done-Reports l s1 s2 embeds all_embeds run2)
          (finish-Reports w c k.name _ all_embeds s2 s3 run3)) in
      (
        ap (λ x. changed x.base.requests) (sym (option_inj e3))
            ∙ Reports-acts change_target l.base s3 change_target-IsSilent reports,
        ap (λ x. x.channels) (sym (option_inj e3)),
      )
