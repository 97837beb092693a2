-- ===== src/Moderation/Ban/Safety.antt =====
-- Whom the ban command of src/cogs/moderation/wrappers/ban/ban_wrapper.cpp bans.
use reactaio.Prelude.{
  ℕ, ◌≡◌, ◌⊎◌, refl, sym, ap, ◌∙◌, true, false, Bool, ◌&&◌, List, [], ◌∷◌, ◌++◌, Option, none, some,
  null, map, arith, Bool-cases, inl, inr, if-true, if-false, if-none, option_inj,
}
use reactaio.Duration.{Duration}
use reactaio.Moderation.World.{User, World, Command, Session, Request}
use reactaio.Moderation.Checks.Allowed.{>>=-eq-some}
use reactaio.Moderation.Policy.Granted.{IsGranted, check_permissions_sound, check_permissions-acts}
use reactaio.Moderation.Session.Acts.{
  acts, acts-append, banned, ban_target, ban_target-IsSilent, IsSilent,
}
use reactaio.Moderation.Hybrid.{Hybrid, collect}
use reactaio.Moderation.Bans.Safety.{process_response-ReportsBase}
use reactaio.Moderation.Bans.Wrapper.{wrapper-Ended}
use reactaio.Moderation.Ban.{
  policy, kind, check_permissions, ban_one, ban_requests, ban_remove_seconds, next_ban,
  process_bans, invalid_title, process_response, wrapper_function, ban_remove_seconds,
  ban_remove_seconds,
}

module _ (w : World) (c : Command) where
  banned-ban_one :
      (seconds id : ℕ) (duration : Option Duration) (u : User) (requests : List Request)
      → ban_one w c seconds id duration u ≡ some requests
      → banned requests ≡ u.id ∷ []
  unfolding ban_one banned acts
  banned-ban_one seconds id none u requests e = elim (Bool-cases c.interaction) [
    | inl i ↦ rw (sym (option_inj (if-true c.interaction _ _ i e))) refl
    | inr i ↦ rw (sym (option_inj (if-false c.interaction _ _ i e))) refl
  ]
  banned-ban_one seconds id (some d) u requests e = elim (Bool-cases c.interaction) [
    | inl i ↦
        let e1 = if-true c.interaction _ _ i e in
        elim (Bool-cases w.executes_after_commit) [
          | inl j ↦ rw (sym (option_inj (if-true w.executes_after_commit _ _ j e1))) refl
          | inr j ↦ absurd (ground (arith, if-false w.executes_after_commit _ _ j e1))
        ]
    | inr i ↦ rw (sym (option_inj (if-false c.interaction _ _ i e))) refl
  ]

  banned-ban_requests :
      (seconds id : ℕ) (duration : Option Duration) (users : List User) (requests : List Request)
      → ban_requests w c seconds id duration users ≡ some requests
      → banned requests ≡ map (λ u. u.id) users
  unfolding ban_requests banned acts
  banned-ban_requests seconds id duration [] requests e = rw (sym (option_inj e)) refl
  banned-ban_requests seconds id duration (u ∷ users) requests e =
      let (first, run, e1) = >>=-eq-some (ban_one w c seconds id duration u) _ e in
      let (rest, runs, e2) = >>=-eq-some (ban_requests w c seconds id duration users) _ e1 in
      rw (sym (option_inj e2)) (
        acts-append ban_target first rest
        ∙ (ap (λ x. x ++ banned rest) (banned-ban_one seconds id duration u first run)
            ∙ ap (λ x. u.id ∷ x) (banned-ban_requests seconds id duration users rest runs)))

  pub process_bans-banned :
      (h h' : Hybrid)
      → process_bans w c h ≡ some h'
      → banned h'.base.requests ≡ banned h.base.requests ++ map (λ u. u.id) h.users
  unfolding process_bans banned
  process_bans-banned h h' e =
      let (_, e0) = if-none h.base.moved e in
      let (seconds, _, e') = >>=-eq-some (ban_remove_seconds w c) _ e0 in
      let (id, _, e1) = >>=-eq-some (next_ban w) _ e' in
      let (requests, run, e2) =
        >>=-eq-some (ban_requests w c seconds id h.base.duration h.users) _ e1 in
      rw (sym (option_inj e2)) (
        acts-append ban_target h.base.requests requests
        ∙ ap (λ x. banned h.base.requests ++ x)
            (banned-ban_requests seconds id h.base.duration h.users requests run))

  -- The checks only report; where they let the command go on they leave it as it was, and it is
  -- granted.
  pub check_permissions-Ended :
      (target : Request → Option ℕ)
      → IsSilent target
      → (users : List ℕ) (s s' : Session) → check_permissions w c users s ≡ some s'
      → (acts target s'.requests ≡ acts target s.requests)
        × (s'.cancel_operation ≡ false → (s' ≡ s) × IsGranted w c policy s.members)
  unfolding check_permissions
  check_permissions-Ended target silent users s s' e =
      elim (Bool-cases (null s.members && null users)) [
        | inl i ↦
            let same = option_inj (if-true (null s.members && null users) _ _ i e) in
            (
              ap (λ x. acts target x.requests) (sym same),
              λ k. absurd (ground (arith, k, ap (λ x. x.cancel_operation) same)),
            )
        | inr i ↦
            let e1 = if-false (null s.members && null users) _ _ i e in
            (
              check_permissions-acts w c policy target s s' silent e1,
              check_permissions_sound w c policy s s' e1,
            )
      ]

  -- A ban command that begins with no ban, and returns, has collected its snowflakes, and has banned
  -- nobody, and then an invalid user was among them or the command is cancelled; or it is granted
  -- for the collected members, and then each collected user is banned, once and in order.
  pub wrapper_function-Ended :
      (h h' : Hybrid)
      → banned h.base.requests ≡ []
      → wrapper_function w c h ≡ some h'
      → (invalid : Bool) × (h1 : Hybrid) × (collect w h.snowflakes h ≡ some (invalid, h1))
        × (((banned h'.base.requests ≡ []) × ((invalid ≡ true) ⊎ (h'.base.cancel_operation ≡ true)))
            ⊎ ((invalid ≡ false)
                × IsGranted w c policy h1.base.members
                × (banned h'.base.requests ≡ map (λ u. u.id) h1.users)))
  unfolding wrapper_function process_response banned
  wrapper_function-Ended h h' n e =
      wrapper-Ended w c false invalid_title (check_permissions w c) (process_bans w c)
        (process_response w c) ban_target (λ s. IsGranted w c policy s.members) (λ h. Unit)
        (λ h. map (λ u. u.id) h.users) h h' (check_permissions-Ended ban_target ban_target-IsSilent)
        (λ h h' r. process_bans-banned h h') (process_response-ReportsBase w c kind)
        ban_target-IsSilent n (λ h1 run. tt) e
