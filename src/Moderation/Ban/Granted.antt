-- ===== src/Moderation/Ban/Granted.antt =====
-- That a granted ban command of src/cogs/moderation/wrappers/ban/ban_wrapper.cpp bans, and for how long.
use reactaio.Moderation.Roles.{◌>>=◌}
use reactaio.Prelude.{
  ℕ, ◌≡◌, refl, sym, ap, ◌∙◌, true, false, ◌&&◌, List, [], ◌∷◌, ◌++◌, Option, none, some, null, map,
  Bool-cases, inl, inr, option_inj, if_true_lem, if_false_lem, arith, All, if◌then◌else◌,
  Option-cases, ◌+◌, ◌%◌, ◌^◌, ◌⊎◌,
}
use reactaio.Prelude.Result.{Result, ok, throw}
use reactaio.UniqueVector.{contains}
use reactaio.UniqueVector.Insert.{Quiet}
use reactaio.Duration.{Duration, parse_human_time}
use reactaio.Duration.Human.{parse_human_time-ne-some}
use reactaio.Moderation.World.{User, Target, World, Command, Session, Request, user_key}
use reactaio.Moderation.Checks.Allowed.{bind_lem}
use reactaio.Moderation.Policy.Granted.{
  IsGranted, check_permissions_complete, check_permissions_refused,
}
use reactaio.Moderation.Session
use reactaio.Moderation.Session.Acts.{banned, acts}
use reactaio.Moderation.Session.Reports.{Reports-banned}
use reactaio.Moderation.Hybrid.{Hybrid, are_all_errors, collect, construct}
use reactaio.Moderation.Hybrid.Collected.{collect-Kept, collect-errors}
use reactaio.Moderation.Bans.{wrapper, run_checked}
use reactaio.Moderation.Bans.Safety.{process_response-ReportsBase}
use reactaio.Moderation.Bans.Ends.{process_response_returns}
use reactaio.Moderation.Ban.{
  policy, kind, check_permissions, ban_one, ban_requests, process_bans, wrapper_function,
  process_response, next_ban, ban_remove_seconds, ban_remove_seconds,
}
use reactaio.Moderation.Ban.Safety.{process_bans-banned}

pub ok_inj {ℓ} : {A : Type ℓ} {a b : A} → ok a ≡ ok b → a ≡ b
ok_inj e = ground (arith, e)

-- A wrapper as the constructor leaves it.
pub record IsNew (targets : List Target) (h : Hybrid) : Type 0 where
  pub duration : h.base.duration ≡ none
  pub errors : h.base.errors ≡ []
  pub cancel_operation : h.base.cancel_operation ≡ false
  pub moved : h.base.moved ≡ false
  pub requests : h.base.requests ≡ []
  pub snowflakes : h.snowflakes ≡ targets
  pub users : h.users ≡ []
  pub users_with_errors : h.users_with_errors ≡ []

-- No text gives a command a duration.
pub construct-IsNew :
    (c : Command) (targets : List Target) (h : Hybrid)
    → construct c targets ≡ ok h
    → IsNew targets h
unfolding construct Session.construct
construct-IsNew c targets h e = go (parse_human_time c.duration) refl
  where
    go : (r : Result (Option Duration)) → parse_human_time c.duration ≡ r → IsNew targets h
    go (ok (some d)) f = absurd (parse_human_time-ne-some c.duration d f)
    go (throw x) f = absurd (ground (arith, rw (construct, Session.construct, f) at e))
    go (ok none) f =
        let same = ok_inj (rw (construct, Session.construct, f) at e) in
        rw (sym same) (record {
          duration = refl;
          errors = refl;
          cancel_operation = refl;
          moved = refl;
          requests = refl;
          snowflakes = refl;
          users = refl;
          users_with_errors = refl;
        })

module _ (w : World) (c : Command) where
  ban_one_returns :
      (seconds id : ℕ) (u : User)
      → (requests : List Request) × (ban_one w c seconds id none u ≡ some requests)
  unfolding ban_one
  ban_one_returns seconds id u = elim (Bool-cases c.interaction) [
    | inl i ↦ (_, if_true_lem c.interaction _ _ i)
    | inr i ↦ (_, if_false_lem c.interaction _ _ i)
  ]

  ban_requests_returns :
      (seconds id : ℕ) (users : List User)
      → (requests : List Request) × (ban_requests w c seconds id none users ≡ some requests)
  unfolding ban_requests
  ban_requests_returns seconds id [] = ([], refl)
  ban_requests_returns seconds id (u ∷ users) =
      let (first, run) = ban_one_returns seconds id u in
      let (rest, runs) = ban_requests_returns seconds id users in
      (
        first ++ rest,
        bind_lem (ban_one w c seconds id none u) _ first run
            ∙ bind_lem (ban_requests w c seconds id none users) _ rest runs,
      )

  process_bans_returns :
      (h : Hybrid) (seconds : ℕ) (row : Option ℕ)
      → ban_remove_seconds w c ≡ some seconds
      → w.ban_id ≡ some row
      → h.base.duration ≡ none
      → h.base.moved ≡ false
      → (requests : List Request) × (process_bans w c h
          ≡ some (record h { base = record h.base { requests = h.base.requests ++ requests } }))
  unfolding process_bans next_ban
  process_bans_returns h seconds row f i d m =
      let id : ℕ = elim row [ none ↦ 1 | some n ↦ (n + 1) % 2 ^ 32 ] in
      let (requests, run) = ban_requests_returns seconds id h.users in
      (
        requests,
        if_false_lem h.base.moved _ _ m
            ∙ (bind_lem (ban_remove_seconds w c) _ seconds f
                ∙ (bind_lem (next_ban w) _ id (bind_lem w.ban_id _ row i)
                    ∙ bind_lem (ban_requests w c seconds id h.base.duration h.users) _ requests
                        (ap (λ x. ban_requests w c seconds id x h.users) d ∙ run))),
      )

  process_bans_throws :
      (h : Hybrid)
      → (ban_remove_seconds w c ≡ none) ⊎ (w.ban_id ≡ none)
      → h.base.moved ≡ false
      → process_bans w c h ≡ none
  unfolding process_bans next_ban
  process_bans_throws h i m =
      if_false_lem h.base.moved _ _ m ∙ elim (Option-cases (ban_remove_seconds w c)) [
        | inl f ↦ rw f refl
        | inr (seconds, f) ↦
            rw f (elim i [ inl e ↦ absurd (ground (arith, e, f)) | inr e ↦ rw e refl ])
      ]

  nonempty :
      (users : List User) (u : User)
      → contains user_key users u ≡ true
      → null (map (λ u. u.address) users) ≡ false
  unfolding contains
  nonempty [] u h = absurd (ground arith)
  nonempty (v ∷ users) u h = refl

  named_some :
      (targets : List Target) (h h1 : Hybrid) (u : User)
      → h.users ≡ []
      → collect w targets h ≡ some (false, h1)
      → contains user_key h1.users u ≡ true
      → null targets ≡ false
  unfolding collect contains
  named_some [] h h1 u n run there =
      let empty : h1.users ≡ [] = ap (λ x. x.1.users) (sym (option_inj run)) ∙ n in
      absurd (ground (arith, rw empty at there))
  named_some (t ∷ targets) h h1 u n run there = refl

  not_all_errors :
      (h : Hybrid) (targets : List Target)
      → h.users_with_errors ≡ []
      → h.snowflakes ≡ targets
      → null targets ≡ false
      → are_all_errors h ≡ false
  unfolding are_all_errors
  not_all_errors h [] e f n = absurd (ground (arith, n))
  not_all_errors h (t ∷ targets) e f n = rw (e, f) (ground arith)

  check_permissions_returns :
      (users : List ℕ) (s : Session)
      → null users ≡ false
      → s.cancel_operation ≡ false
      → w.refuses_nested ≡ false
      → IsGranted w c policy s.members
      → check_permissions w c users s ≡ some s
  unfolding check_permissions
  check_permissions_returns users s n k r g =
      if_false_lem (null s.members && null users) _ _ (ground (arith, n))
      ∙ check_permissions_complete w c policy s k r g

  -- The checks of a ban command throw where the database refuses a second transaction.
  check_permissions_throws :
      (users : List ℕ) (s : Session)
      → null users ≡ false
      → w.refuses_nested ≡ true
      → check_permissions w c users s ≡ none
  unfolding check_permissions
  check_permissions_throws users s n r =
      if_false_lem (null s.members && null users) _ _ (ground (arith, n))
      ∙ check_permissions_refused w c policy s r

  run_checked_eq :
      (h h1 : Hybrid) (u : User)
      → h.base.moved ≡ false
      → h1.base.cancel_operation ≡ false
      → collect w h.snowflakes h ≡ some (false, h1)
      → IsGranted w c policy h1.base.members
      → contains user_key h1.users u ≡ true
      → wrapper_function w c h
        ≡ (if w.refuses_nested then none else process_bans w c h1 >>= process_response w c)
  unfolding wrapper_function wrapper run_checked
  run_checked_eq h h1 u m k run g there =
      let ids = map (λ u. u.address) h1.users in
      if_false_lem h.base.moved _ _ m
      ∙ (bind_lem (collect w h.snowflakes h) _ (false, h1) run
          ∙ elim (Bool-cases w.refuses_nested) [
            | inl r ↦
                rw (check_permissions_throws ids h1.base (nonempty h1.users u there) r, r) refl
            | inr r ↦
                bind_lem (check_permissions w c ids h1.base) _ h1.base
                  (check_permissions_returns ids h1.base (nonempty h1.users u there) k r g)
                ∙ (if_false_lem h1.base.cancel_operation _ _ k
                    ∙ sym (if_false_lem w.refuses_nested _ _ r))
          ])

  answered :
      (targets : List Target) (h h1 : Hybrid) (u : User) (seconds : ℕ) (row : Option ℕ)
      → ban_remove_seconds w c ≡ some seconds
      → w.ban_id ≡ some row
      → IsNew targets h
      → collect w targets h ≡ some (false, h1)
      → All (Quiet user_key w.past_users) h1.users
      → contains user_key h1.users u ≡ true
      → (h' : Hybrid) × ((process_bans w c h1 >>= process_response w c) ≡ some h')
        × (banned h'.base.requests ≡ map (λ u. u.id) h1.users)
  unfolding banned acts process_response
  answered targets h h1 u seconds row f i new run q there =
      let kept = collect-Kept w targets h h1 false run in
      let (requests, bans) =
        process_bans_returns h1 seconds row f i (kept.duration ∙ new.duration)
          (kept.moved ∙ new.moved) in
      let h3 : Hybrid = record h1 {
        base = record h1.base { requests = h1.base.requests ++ requests };
      } in
      let (h', response) =
        process_response_returns w c kind h3 u (kept.moved ∙ new.moved)
          (collect-errors w targets h h1 run ∙ new.errors)
          (not_all_errors h3 targets (kept.users_with_errors ∙ new.users_with_errors)
            (kept.snowflakes ∙ new.snowflakes) (named_some targets h h1 u new.users run there))
          q there
          (ap (λ x. contains user_key x u) (kept.users_with_errors ∙ new.users_with_errors)
            ∙ (unfold contains in refl)) in
      (
        h',
        bind_lem (process_bans w c h1) _ h3 bans ∙ response,
        Reports-banned h3.base h'.base (process_response-ReportsBase w c kind h3 h' response)
            ∙ (process_bans-banned w c h1 h3 bans
                ∙ ap (λ x. banned x ++ map (λ u. u.id) h1.users) (kept.requests ∙ new.requests)),
      )

  -- A ban command fresh from its constructor, whose snowflakes are collected without an invalid user
  -- and with a user at least, and which is granted for the collected members, comes to its end, and
  -- has then banned the collected users, each once and in order, except in three cases, in which
  -- it throws: the database refuses a second transaction while that of the check is live, the days of
  -- messages to delete are null in its row and the command gives none, or the guild has no row of a
  -- temporary ban. No read behind the last element of a container faults or matches
  -- one of the users.
  pub wrapper_function-banned :
      (targets : List Target) (h h1 : Hybrid) (u : User)
      → construct c targets ≡ ok h
      → collect w targets h ≡ some (false, h1)
      → IsGranted w c policy h1.base.members
      → All (Quiet user_key w.past_users) h1.users
      → contains user_key h1.users u ≡ true
      → (((w.refuses_nested ≡ true) ⊎ (ban_remove_seconds w c ≡ none) ⊎ (w.ban_id ≡ none))
          × (wrapper_function w c h ≡ none))
        ⊎ ((w.refuses_nested ≡ false)
            × ((h' : Hybrid) × (wrapper_function w c h ≡ some h')
                × (banned h'.base.requests ≡ map (λ u. u.id) h1.users)))
  wrapper_function-banned targets h h1 u e run g q there =
      let new = construct-IsNew c targets h e in
      let kept = collect-Kept w targets h h1 false run in
      let eq =
        run_checked_eq h h1 u new.moved (kept.cancel_operation ∙ new.cancel_operation)
          (ap (λ x. collect w x h) new.snowflakes ∙ run) g there in
      elim (Bool-cases w.refuses_nested) [
        | inl r ↦ inl (inl r, eq ∙ if_true_lem w.refuses_nested _ _ r)
        | inr r ↦
            (let throws : (ban_remove_seconds w c ≡ none) ⊎ (w.ban_id ≡ none)
                  → wrapper_function w c h ≡ none =
                λ i.
                  eq
                  ∙ (if_false_lem w.refuses_nested _ _ r
                      ∙ ap (λ x. x >>= process_response w c)
                          (process_bans_throws h1 i (kept.moved ∙ new.moved))) in
              elim (Option-cases (ban_remove_seconds w c)) [
                | inl f ↦ inl (inr (inl f), throws (inl f))
                | inr (seconds, f) ↦ elim (Option-cases w.ban_id) [
                  | inl i ↦ inl (inr (inr i), throws (inr i))
                  | inr (row, i) ↦
                      let (h', response, bans) =
                        answered targets h h1 u seconds row f i new run q there in
                      inr (r, (h', eq ∙ (if_false_lem w.refuses_nested _ _ r ∙ response), bans))
                ]
              ])
      ]
