-- ===== src/Moderation/Session/Reports.antt =====
-- What src/cogs/moderation/wrappers/command_wrapper.cpp asks for beside the acts of a command: only
-- reports.
use reactaio.Prelude.{
  none, Option, if◌then◌else◌, ℕ, ◌≡◌, refl, sym, ap, ◌∙◌, Bool, true, false, List, [], ◌∷◌, ◌++◌,
  some, arith, Bool-cases, Option-cases, inl, inr, Text, map, ◌==◌, codes, append-nil, append_assoc,
  All, All-append, option_inj, if_true_lem, if_false_lem, if-none,
}
use reactaio.Helpers.{join_with_limit}
use reactaio.Moderation.World.{
  World, Command, Embed, Request, Session, edit_response, paginate, command_insert,
}
use reactaio.Moderation.Statements.{exec_prepared}
use reactaio.Moderation.Session.{
  send_errors, log_command_invoke, invoke_error_webhook, reply_with, reject, request, error_embed,
  max_embed_chars,
}
use reactaio.Moderation.Session.Acts.{
  is_report, acts, acts-append, acts-reports, kicked, kick_target, kick_target-IsSilent, banned,
  ban_target, ban_target-IsSilent, IsSilent,
}

-- A session that has made further reports, and has the same members.
pub record Reports (s s' : Session) : Type 0 where
  pub added : List Request
  pub appended : s'.requests ≡ s.requests ++ added
  pub only_reports : All (λ r. is_report r ≡ true) added
  pub same_members : s'.members ≡ s.members
  pub same_cancel : s'.cancel_operation ≡ s.cancel_operation

pub Reports-acts :
    (target : Request → Option ℕ) (s s' : Session)
    → IsSilent target
    → Reports s s'
    → acts target s'.requests ≡ acts target s.requests
Reports-acts target s s' silent a =
    rw
      (
        a.appended,
        acts-append target s.requests a.added,
        acts-reports target a.added silent a.only_reports,
      )
      (append-nil (acts target s.requests))

pub Reports-kicked : (s s' : Session) → Reports s s' → kicked s'.requests ≡ kicked s.requests
unfolding kicked
Reports-kicked s s' a = Reports-acts kick_target s s' kick_target-IsSilent a

pub Reports-banned : (s s' : Session) → Reports s s' → banned s'.requests ≡ banned s.requests
unfolding banned
Reports-banned s s' a = Reports-acts ban_target s s' ban_target-IsSilent a

pub Reports-same :
    (s t : Session)
    → t.requests ≡ s.requests
    → t.members ≡ s.members
    → t.cancel_operation ≡ s.cancel_operation
    → Reports s t
Reports-same s t q m k = record {
  added = [];
  appended = q ∙ sym (append-nil s.requests);
  only_reports = tt;
  same_members = m;
  same_cancel = k;
}

pub Reports-refl : (s : Session) → Reports s s
Reports-refl s = Reports-same s s refl refl refl

pub Reports-trans : (s t u : Session) → Reports s t → Reports t u → Reports s u
Reports-trans s t u a b = record {
  added = a.added ++ b.added;
  appended =
      b.appended ∙ (ap (λ x. x ++ b.added) a.appended ∙ append_assoc s.requests a.added b.added);
  only_reports = All-append (λ r. is_report r ≡ true) a.added b.added a.only_reports b.only_reports;
  same_members = b.same_members ∙ a.same_members;
  same_cancel = b.same_cancel ∙ a.same_cancel;
}

-- One more request.
pub Reports-request :
    (r : Request) (s t : Session)
    → is_report r ≡ true
    → t.requests ≡ s.requests ++ r ∷ []
    → t.members ≡ s.members
    → t.cancel_operation ≡ s.cancel_operation
    → Reports s t
Reports-request r s t e q m k = record {
  added = r ∷ [];
  appended = q;
  only_reports = (e, tt);
  same_members = m;
  same_cancel = k;
}

module _ (w : World) (c : Command) where
  pub invoke_error_webhook-Reports :
      (s s' : Session) → invoke_error_webhook w c s ≡ some s' → Reports s s'
  unfolding invoke_error_webhook
  invoke_error_webhook-Reports s s' h = elim (Bool-cases s.moved) [
    | inl e ↦ absurd (ground (arith, h))
    | inr e ↦ go e (join_with_limit s.errors 4096) refl
  ]
    where
      asked : (r : Request) → is_report r ≡ true → some (request r s) ≡ some s' → Reports s s'
      asked r k q =
          Reports-request r s s' k (ground (arith, q)) (ground (arith, q)) (ground (arith, q))

      go :
          s.moved ≡ false
          → (chunks : List Text) → join_with_limit s.errors 4096 ≡ chunks
          → Reports s s'
      go e [] e' = absurd (ground (arith, rw (e, e', invoke_error_webhook) at h))
      go e (content ∷ []) e' = elim (Option-cases (w.webhooks (codes "bot_error_logs"))) [
        | inl f ↦
            asked _ refl (if-none w.lacks_webhooks (rw (e, e', f, invoke_error_webhook) at h)).1
        | inr (url, f) ↦
            asked _ refl (if-none w.lacks_webhooks (rw (e, e', f, invoke_error_webhook) at h)).1
      ]
      go e (content ∷ other ∷ others) e' =
          absurd (ground (arith, rw (e, e', invoke_error_webhook) at h))

  pub reply_with-Reports :
      (hidden : Bool) (chunks : ℕ) (embeds : List Embed) (s : Session)
      → Reports s (reply_with hidden chunks embeds s)
  unfolding reply_with
  reply_with-Reports hidden chunks embeds s = elim (Bool-cases (chunks == 1)) [
    | inl e ↦
        rw (e, reply_with) (Reports-request (edit_response hidden embeds) s _ refl refl refl refl)
    | inr e ↦ rw (e, reply_with) (Reports-request (paginate hidden embeds) s _ refl refl refl refl)
  ]

  -- A refusal only reports, and never clears `cancel_operation`.
  pub reject-Reports : (t : Text) (s s' : Session) → reject w c t s ≡ some s' → Reports s s'
  unfolding reject
  reject-Reports t s s' h = elim (Bool-cases c.interaction) [
    | inl e ↦
        rw (sym (option_inj (rw e at h)))
          (Reports-trans s (with_embeds) _ (again) (reply_with-Reports true _ _ with_embeds))
    | inr e ↦
        Reports-trans s with_embeds s' again
          (invoke_error_webhook-Reports with_embeds s' (rw e at h))
  ]
    where
      with_embeds : Session
      with_embeds = record s {
        error_embeds =
            s.error_embeds ++ map (error_embed t) (join_with_limit s.errors max_embed_chars);
      }

      again : Reports s with_embeds
      again = Reports-same s with_embeds refl refl refl

pub Reports-if :
    (b : Bool) (s t u : Session) → Reports s t → Reports s u → Reports s (if b then t else u)
Reports-if true s t u x y = x
Reports-if false s t u x y = y

-- The end of a chain of calls.
pub Reports-some : (s t s' : Session) → Reports s t → some t ≡ some s' → Reports s s'
Reports-some s t s' h e = rw (sym (option_inj e)) h

pub Reports-pair {ℓ} :
    {A : Type ℓ} (a a' : A) (s t s' : Session)
    → Reports s t
    → ◌≡◌ {A = Option (A × Session)} (some (a, t)) (some (a', s'))
    → Reports s s'
Reports-pair {A} a a' s t s' h e =
    rw (sym (ap (λ x. x.1) (option_inj {A = A × Session} {a = (a, t)} {b = (a', s')} e))) h

pub log_command_invoke-Reports :
    (name : Text) (s s' : Session) → log_command_invoke name s ≡ some s' → Reports s s'
unfolding log_command_invoke
log_command_invoke-Reports name s s' h = elim (Bool-cases s.moved) [
  | inl e ↦ absurd (ground (arith, h))
  | inr e ↦
      Reports-some s _ s' (Reports-request (command_insert name) s _ refl refl refl refl)
        (rw (e, log_command_invoke) at h)
]

-- No statement is named "botlog".
pub send_errors-none :
    (w : World) (c : Command) (embeds : List Embed) (s : Session) → send_errors w c embeds s ≡ none
unfolding send_errors exec_prepared
send_errors-none w c embeds s = elim (Bool-cases s.moved) [
  | inl e ↦ if_true_lem s.moved _ _ e
  | inr e ↦ if_false_lem s.moved _ _ e
]
