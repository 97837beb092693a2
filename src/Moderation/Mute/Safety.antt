-- ===== src/Moderation/Mute/Safety.antt =====
-- Whom the mute command of src/cogs/moderation/wrappers/mute/mute_wrapper.cpp mutes.
use reactaio.Prelude.{
  ℕ, ◌≡◌, ◌⊎◌, refl, sym, ap, ◌∙◌, true, false, ltb, ◌==◌, List, [], ◌∷◌, ◌++◌, Option, none, some,
  Bool-cases, Option-cases, inl, inr, if-none, if-true, if-false, option_inj, map, arith,
  if◌then◌else◌,
}
use reactaio.Prelude.Result.{ok, throw}
use reactaio.Duration.{Duration, parse_human_time, to_seconds}
use reactaio.Moderation.World.{
  World, Command, Member, Request, Session, guild_member_timeout, guild_member_add_role,
}
use reactaio.Moderation.Checks.Allowed.{>>=-eq-some}
use reactaio.Moderation.Policy.Granted.{IsGranted, check_permissions_sound, check_permissions-acts}
use reactaio.Moderation.Session.Acts.{acts, acts-append, IsSilent}
use reactaio.Moderation.Session.Reports.{Reports-acts}
use reactaio.Moderation.Notices.Safety
use reactaio.Moderation.Mute.{
  policy, kind, max_timeout_seconds, seconds, timeout_requests, role_requests, uses_timeout,
  mute_for, check_permissions, process_mutes, process_response, wrapper_function, too_long,
}

abbrev silence_target : Request → Option ℕ
silence_target (guild_member_timeout id _) = some id
silence_target (guild_member_add_role id _) = some id
silence_target _ = none

silence_target-IsSilent : IsSilent silence_target
silence_target-IsSilent (guild_member_timeout _ _) h = absurd (ground arith)
silence_target-IsSilent (guild_member_add_role _ _) h = absurd (ground arith)
silence_target-IsSilent _ h = refl

-- The users that the requests time out or give a role, in order.
unfoldable pub silenced : List Request → List ℕ
unfolding acts
silenced = acts silence_target

unfoldable pub ids : List Member → List ℕ
ids members = map (λ m. m.user_id) members

silenced-timeout_requests :
    (until : ℕ) (members : List Member) → silenced (timeout_requests until members) ≡ ids members
unfolding silenced acts timeout_requests ids
silenced-timeout_requests until [] = refl
silenced-timeout_requests until (m ∷ members) =
    ap (λ x. m.user_id ∷ x) (silenced-timeout_requests until members)

silenced-role_requests :
    (role : ℕ) (d : Option Duration) (members : List Member) (requests : List Request)
    → role_requests role d members ≡ some requests
    → silenced requests ≡ ids members
unfolding silenced acts role_requests ids
silenced-role_requests role d [] requests e = ap (acts silence_target) (sym (option_inj e))
silenced-role_requests role none (m ∷ members) requests e = absurd (ground arith)
silenced-role_requests role (some d) (m ∷ members) requests e =
    let (rest, run, e1) = >>=-eq-some (role_requests role (some d) members) _ e in
    ap (acts silence_target) (sym (option_inj e1))
    ∙ ap (λ x. m.user_id ∷ x) (silenced-role_requests role (some d) members rest run)

-- Nobody, or all members once more.
unfoldable pub MutesAll : Session → Session → Type 0
MutesAll s t =
    (silenced t.requests ≡ silenced s.requests)
    ⊎ (silenced t.requests ≡ silenced s.requests ++ ids s.members)

module _ (w : World) where
  added-MutesAll :
      (s t : Session) (requests : List Request)
      → silenced requests ≡ ids s.members
      → some (record s { requests = s.requests ++ requests }) ≡ some t
      → MutesAll s t
  unfolding silenced MutesAll
  added-MutesAll s t requests h e = inr (
      ap (λ x. silenced x.requests) (sym (option_inj e))
      ∙ (acts-append silence_target s.requests requests ∙ ap (λ x. silenced s.requests ++ x) h))

  told-MutesAll : (s t u : Session) → u.requests ≡ s.requests → some u ≡ some t → MutesAll s t
  unfolding MutesAll
  told-MutesAll s t u h e = inl (ap (λ x. silenced x.requests) (sym (option_inj e)) ∙ ap silenced h)

  mute_for-MutesAll : (d : Option Duration) (s t : Session) → mute_for w d s ≡ some t → MutesAll s t
  unfolding mute_for
  mute_for-MutesAll d s t e = elim (Bool-cases (uses_timeout w)) [
    | inl i ↦ timed d (if-true (uses_timeout w) _ _ i e)
    | inr i ↦
        let e1 = if-false (uses_timeout w) _ _ i e in
        elim (Option-cases w.mute_role) [
          | inl n ↦ told-MutesAll s t _ refl (rw n at e1)
          | inr (role, n) ↦
              let e2 = (rw n at e1) in
              elim (Bool-cases (w.find_role role == 0)) [
                | inl z ↦ told-MutesAll s t _ refl (if-true (w.find_role role == 0) _ _ z e2)
                | inr z ↦
                    let (requests, run, e3) =
                      >>=-eq-some (role_requests role d s.members) _
                        (if-false (w.find_role role == 0) _ _ z e2) in
                    added-MutesAll s t requests
                      (silenced-role_requests role d s.members requests run) e3
              ]
        ]
  ]
    where
      timed :
          (d : Option Duration)
          → (elim d [
            | none ↦ some (record s {
              requests = s.requests ++ timeout_requests max_timeout_seconds s.members;
            })
            | some d ↦
                if ltb max_timeout_seconds (seconds d)
                then some (record s { errors = s.errors ++ too_long ∷ [] })
                else some (record s {
                  requests = s.requests ++ timeout_requests (w.time_after (to_seconds d)) s.members;
                })
          ])
            ≡ some t
          → MutesAll s t
      timed none e =
          added-MutesAll s t _ (silenced-timeout_requests max_timeout_seconds s.members) e
      timed (some d) e = elim (Bool-cases (ltb max_timeout_seconds (seconds d))) [
        | inl l ↦ told-MutesAll s t _ refl (if-true (ltb max_timeout_seconds (seconds d)) _ _ l e)
        | inr l ↦
            added-MutesAll s t _ (silenced-timeout_requests (w.time_after (to_seconds d)) s.members)
              (if-false (ltb max_timeout_seconds (seconds d)) _ _ l e)
      ]

module _ (w : World) (c : Command) where
  process_mutes-MutesAll : (s t : Session) → process_mutes w c s ≡ some t → MutesAll s t
  unfolding process_mutes MutesAll
  process_mutes-MutesAll s t e =
      let (_, e1) = if-none s.moved e in go (parse_human_time c.duration) refl e1
    where
      go :
          (r : _)
          → parse_human_time c.duration ≡ r
          → (elim r [ throw x ↦ none | ok d ↦ mute_for w d (record s { duration = d }) ]) ≡ some t
          → MutesAll s t
      go (throw x) p e1 = absurd (ground arith)
      go (ok d) p e1 = mute_for-MutesAll w d (record s { duration = d }) t e1

  -- A mute command that begins with no cancellation and nobody muted, and returns, has refused, and
  -- then nobody is timed out or given a role, or it is granted for its members, and then this happens
  -- to nobody or to each of them, once and in order.
  pub wrapper_function-silenced :
      (s s' : Session)
      → s.cancel_operation ≡ false
      → silenced s.requests ≡ []
      → wrapper_function w c s ≡ some s'
      → ((s'.cancel_operation ≡ true) × (silenced s'.requests ≡ []))
        ⊎ (IsGranted w c policy s.members
            × ((silenced s'.requests ≡ []) ⊎ (silenced s'.requests ≡ ids s.members)))
  unfolding wrapper_function silenced MutesAll process_response
  wrapper_function-silenced s s' k n h =
      let (t, run, rest) = >>=-eq-some (check_permissions w c s) _ h in
      elim (Bool-cases t.cancel_operation) [
        | inl e ↦
            let same : t ≡ s' = option_inj (if-true t.cancel_operation _ _ e rest) in
            inl (
              ap (λ x. x.cancel_operation) (sym same) ∙ e,
              ap (λ x. silenced x.requests) (sym same)
                  ∙ (check_permissions-acts w c policy silence_target s t silence_target-IsSilent
                        run
                      ∙ n),
            )
        | inr e ↦
            let (same, granted) = check_permissions_sound w c policy s t run e in
            let (u, muted, answered) =
              >>=-eq-some (process_mutes w c t) _ (if-false t.cancel_operation _ _ e rest) in
            let after : silenced s'.requests ≡ silenced u.requests =
              Reports-acts silence_target u s' silence_target-IsSilent
                (Safety.process_response-Reports w c (kind (uses_timeout w)) u s' answered) in
            inr (
              granted,
              elim (process_mutes-MutesAll t u muted) [
                | inl q ↦ inl (after ∙ (q ∙ (ap (λ x. silenced x.requests) same ∙ n)))
                | inr q ↦ inr (
                    after
                    ∙ (q
                        ∙ (ap (λ x. silenced x.requests ++ ids x.members) same
                            ∙ ap (λ x. x ++ ids s.members) n)))
              ],
            )
      ]
