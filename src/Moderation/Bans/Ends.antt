-- ===== src/Moderation/Bans/Ends.antt =====
-- That the answers of the bans of src/cogs/moderation/wrappers come to their end without errors.
use reactaio.Prelude.{
  ◌≡◌, refl, ◌∙◌, true, false, List, [], ◌∷◌, Option, some, Bool-cases, Option-cases, inl, inr,
  if_true_lem, if_false_lem, arith, All,
}
use reactaio.UniqueVector.{contains}
use reactaio.UniqueVector.Insert.{Quiet}
use reactaio.Algorithm.{set_difference}
use reactaio.Algorithm.Sets.{set_difference_lem}
use reactaio.Duration.{Duration}
use reactaio.Moderation.World.{User, World, Command, Embed, Session, user_key, execute_webhook}
use reactaio.Moderation.Checks.Allowed.{bind_lem}
use reactaio.Moderation.Session.{has_error, reply_with, log_command_invoke, request}
use reactaio.Moderation.Hybrid.{Hybrid, are_all_errors}
use reactaio.Moderation.Bans.{
  LogColumn, Kind, respond_errors, log_embed, log_all, announcement, respond_banned, send_answer,
  finish, process_response,
}

module _ (w : World) (c : Command) (k : Kind) where
  log_embed_returns :
      (duration : Option Duration) (l : LogColumn) (u : User) (users : List User)
      → (embed : Embed) × (log_embed w c k duration l (u ∷ users) ≡ some embed)
  unfolding log_embed
  log_embed_returns duration l u [] = (_, refl)
  log_embed_returns duration l u (v ∷ users) = (_, refl)

  log_all_returns :
      (u : User) (users : List User) (logs : List LogColumn) (s : Session)
      → (s' : Session) × (log_all w c k (u ∷ users) logs s ≡ some s') × (s'.moved ≡ s.moved)
  unfolding log_all
  log_all_returns u users [] s = (s, refl, refl)
  log_all_returns u users (l ∷ logs) s = elim (Option-cases (w.webhooks l.column)) [
    | inl n ↦ rw (n, log_all) (log_all_returns u users logs s)
    | inr (url, n) ↦
        let (embed, e) = log_embed_returns s.duration l u users in
        let (s', run, m) =
          log_all_returns u users logs (request (execute_webhook url (embed ∷ [])) s) in
        (s', rw (n, log_all, e) run, m)
  ]

  respond_errors_none : (h : Hybrid) → h.base.errors ≡ [] → respond_errors w c k h ≡ some ([], h)
  unfolding respond_errors has_error
  respond_errors_none h e = if_false_lem (has_error h.base) _ _ (rw e refl)

  send_answer_returns :
      (embed : Embed) (h : Hybrid)
      → h.base.moved ≡ false
      → (s : Session) × (send_answer c k (embed ∷ []) h ≡ some s)
  unfolding send_answer reply_with log_command_invoke
  send_answer_returns embed h m = elim (Bool-cases c.interaction) [
    | inl i ↦ (_, if_true_lem c.interaction _ _ i ∙ if_false_lem h.base.moved _ _ m)
    | inr i ↦ (_, if_false_lem c.interaction _ _ i ∙ if_false_lem h.base.moved _ _ m)
  ]

  finish_returns :
      (embed : Embed) (h : Hybrid)
      → h.base.moved ≡ false
      → (h' : Hybrid) × (finish c k (embed ∷ []) h ≡ some h')
  unfolding finish
  finish_returns embed h m =
      let (s, run) = send_answer_returns embed h m in
      (record h { base = s }, bind_lem (send_answer c k (embed ∷ []) h) _ s run)

  -- An answer without an error comes to its end if a collected user is among those without errors.
  pub process_response_returns :
      (h : Hybrid) (u : User)
      → h.base.moved ≡ false
      → h.base.errors ≡ []
      → are_all_errors h ≡ false
      → All (Quiet user_key w.past_users) h.users
      → contains user_key h.users u ≡ true
      → contains user_key h.users_with_errors u ≡ false
      → (h' : Hybrid) × (process_response w c k h ≡ some h')
  unfolding process_response respond_banned
  process_response_returns h u m n a q there fine =
      let (users, run, law) =
        set_difference_lem user_key w.past_users h.users h.users_with_errors [] q in
      go users run (law u ∙ unfold contains in ground (arith, there, fine))
    where
      go :
          (users : List User)
          → set_difference user_key w.past_users h.users h.users_with_errors [] ≡ some users
          → contains user_key users u ≡ true
          → (h' : Hybrid) × (process_response w c k h ≡ some h')
      go [] run found = absurd (unfold contains in ground (arith, found))
      go (v ∷ users) run found =
          let (s, logs, m') = log_all_returns v users k.logs h.base in
          let (h', runs) =
            finish_returns (announcement w c k h.base.duration (v ∷ users)) (record h { base = s })
              (m' ∙ m) in
          (
            h',
            if_false_lem h.base.moved _ _ m
                ∙ (bind_lem (respond_errors w c k h) _ ([], h) (respond_errors_none h n)
                    ∙ (bind_lem (respond_banned w c k [] h) _
                          (
                            announcement w c k h.base.duration (v ∷ users) ∷ [],
                            record h { base = s },
                          )
                          (if_false_lem (are_all_errors h) _ _ a
                            ∙ (bind_lem
                                  (set_difference user_key w.past_users h.users h.users_with_errors
                                    [])
                                  _ (v ∷ users) run
                                ∙ (if_false_lem h.base.moved _ _ m
                                    ∙ bind_lem (log_all w c k (v ∷ users) k.logs h.base) _ s logs)))
                        ∙ runs)),
          )
