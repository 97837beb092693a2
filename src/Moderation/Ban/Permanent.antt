-- ===== src/Moderation/Ban/Permanent.antt =====
-- How long the bans of src/cogs/moderation/wrappers/ban/ban_wrapper.cpp last.
use reactaio.Prelude.{
  ℕ, ◌≡◌, refl, sym, ap, ◌∙◌, false, List, [], ◌∷◌, ◌++◌, Option, none, some, arith, Bool-cases,
  inl, inr, if-true, if-false, if-none, option_inj,
}
use reactaio.Prelude.Result.{ok}
use reactaio.Moderation.World.{User, Target, World, Command, Request, tempban}
use reactaio.Moderation.Checks.Allowed.{>>=-eq-some}
use reactaio.Moderation.Policy.Granted.{IsGranted}
use reactaio.Moderation.Session.Acts.{acts, acts-append, IsSilent}
use reactaio.Moderation.Hybrid.{Hybrid, construct}
use reactaio.Moderation.Hybrid.Collected.{collect-Kept}
use reactaio.Moderation.Bans.Safety.{process_response-ReportsBase}
use reactaio.Moderation.Bans.Wrapper.{wrapper-Ended}
use reactaio.Moderation.Ban.{
  policy, kind, check_permissions, ban_one, ban_requests, ban_remove_seconds, next_ban,
  process_bans, invalid_title, process_response, wrapper_function, ban_remove_seconds,
  ban_remove_seconds,
}
use reactaio.Moderation.Ban.Safety.{check_permissions-Ended}
use reactaio.Moderation.Ban.Granted.{construct-IsNew}

-- The user of a row that ends a ban.
abbrev pub temporary_target : Request → Option ℕ
temporary_target (tempban _ user _) = some user
temporary_target _ = none

temporary_target-IsSilent : IsSilent temporary_target
temporary_target-IsSilent (tempban _ _ _) h = absurd (ground arith)
temporary_target-IsSilent _ h = refl

module _ (w : World) (c : Command) where
  ban_one_permanent :
      (seconds id : ℕ) (u : User) (requests : List Request)
      → ban_one w c seconds id none u ≡ some requests
      → acts temporary_target requests ≡ []
  unfolding ban_one acts
  ban_one_permanent seconds id u requests e = elim (Bool-cases c.interaction) [
    | inl i ↦ rw (sym (option_inj (if-true c.interaction _ _ i e))) refl
    | inr i ↦ rw (sym (option_inj (if-false c.interaction _ _ i e))) refl
  ]

  ban_requests_permanent :
      (seconds id : ℕ) (users : List User) (requests : List Request)
      → ban_requests w c seconds id none users ≡ some requests
      → acts temporary_target requests ≡ []
  unfolding ban_requests acts
  ban_requests_permanent seconds id [] requests e = rw (sym (option_inj e)) refl
  ban_requests_permanent seconds id (u ∷ users) requests e =
      let (first, run, e1) = >>=-eq-some (ban_one w c seconds id none u) _ e in
      let (rest, runs, e2) = >>=-eq-some (ban_requests w c seconds id none users) _ e1 in
      rw (sym (option_inj e2)) (
        acts-append temporary_target first rest
        ∙ (ap (λ x. x ++ acts temporary_target rest) (ban_one_permanent seconds id u first run)
            ∙ ban_requests_permanent seconds id users rest runs))

  process_bans_permanent :
      (h h' : Hybrid)
      → h.base.duration ≡ none
      → process_bans w c h ≡ some h'
      → acts temporary_target h'.base.requests ≡ acts temporary_target h.base.requests ++ []
  unfolding process_bans
  process_bans_permanent h h' d e =
      let (_, e0) = if-none h.base.moved e in
      let (seconds, _, e') = >>=-eq-some (ban_remove_seconds w c) _ e0 in
      let (id, _, e1) = >>=-eq-some (next_ban w) _ e' in
      let (requests, run, e2) =
        >>=-eq-some (ban_requests w c seconds id h.base.duration h.users) _ e1 in
      rw (sym (option_inj e2)) (
        acts-append temporary_target h.base.requests requests
        ∙ ap (λ x. acts temporary_target h.base.requests ++ x)
            (ban_requests_permanent seconds id h.users requests
              (ap (λ x. ban_requests w c seconds id x h.users) (sym d) ∙ run)))

  -- A ban command fresh from its constructor, whatever text its duration is, that returns has written
  -- no row of a temporary ban: no ban ends.
  pub wrapper_function_permanent :
      (targets : List Target) (h h' : Hybrid)
      → construct c targets ≡ ok h
      → wrapper_function w c h ≡ some h'
      → acts temporary_target h'.base.requests ≡ []
  unfolding wrapper_function process_response acts
  wrapper_function_permanent targets h h' new e =
      let n = construct-IsNew c targets h new in
      let (invalid, h1, run, ends) =
        wrapper-Ended w c false invalid_title (check_permissions w c) (process_bans w c)
          (process_response w c) temporary_target (λ s. IsGranted w c policy s.members)
          (λ h. h.base.duration ≡ none) (λ h. []) h h'
          (check_permissions-Ended w c temporary_target temporary_target-IsSilent)
          process_bans_permanent (process_response-ReportsBase w c kind) temporary_target-IsSilent
          (ap (acts temporary_target) n.requests)
          (λ h1 run. (collect-Kept w h.snowflakes h h1 false run).duration ∙ n.duration) e in
      elim ends [ inl (a, _) ↦ a | inr (_, _, a) ↦ a ]
