-- ===== src/Moderation/Warn/Safety.antt =====
-- Whom the warn command of src/cogs/moderation/wrappers/warn/warn_wrapper.cpp warns.
use reactaio.Moderation.Checks.{Verdict}
use reactaio.Moderation.Open.Granted.{IsOpen, judge_open_sound}
use reactaio.Prelude.{
  ◌≡◌, ◌⊎◌, refl, sym, ap, ◌∙◌, true, false, List, [], ◌∷◌, ◌++◌, some, All, Bool-cases, inl, inr,
  if-true, if-false, option_inj, map, if◌then◌else◌, if_true_lem, if_false_lem, codes, ℕ,
}
use reactaio.Moderation.World.{World, Command, Member, Request, Session, direct_message}
use reactaio.Moderation.Checks.Allowed.{>>=-eq-some}
use reactaio.Moderation.Roles.{get_protected_roles}
use reactaio.Moderation.Open.{judge_open}
use reactaio.Moderation.Session.Acts.{is_report}
use reactaio.Moderation.Session.Reports.{reject-Reports}
use reactaio.Moderation.Notices.Safety
use reactaio.Moderation.Warn.{
  checks, kind, check_permissions, warning_message, warning_requests, process_warnings,
  process_response, wrapper_function,
}

-- A message to each member.
unfoldable pub told : Command → List Member → List Request
told c members = map (λ m. direct_message m.user_id (warning_message c m)) members

warning_requests-told :
    (c : Command) (members : List Member)
    → warning_requests c members ≡ (if c.interaction then told c members else [])
unfolding warning_requests told
warning_requests-told c members = elim (Bool-cases c.interaction) [
  | inl i ↦ sent i members ∙ sym (if_true_lem c.interaction _ _ i)
  | inr i ↦ unsent i members ∙ sym (if_false_lem c.interaction _ _ i)
]
  where
    sent : c.interaction ≡ true → (ms : List Member) → warning_requests c ms ≡ told c ms
    sent i [] = refl
    sent i (m ∷ ms) =
        if_true_lem c.interaction _ _ i
        ∙ ap (λ x. direct_message m.user_id (warning_message c m) ∷ x) (sent i ms)

    unsent : c.interaction ≡ false → (ms : List Member) → warning_requests c ms ≡ []
    unsent i [] = refl
    unsent i (m ∷ ms) = if_false_lem c.interaction _ _ i ∙ unsent i ms

-- The second list is the first one and reports.
unfoldable pub OnlyReports : List Request → List Request → Type 0
OnlyReports before after =
    (rest : List Request) × (after ≡ before ++ rest) × All (λ r. is_report r ≡ true) rest

module _ (w : World) (c : Command) where
  -- The command is granted for these members, where there are any.
  abbrev pub IsOpenFor : List ℕ → List Member → Type 0
  IsOpenFor protected [] = Unit
  IsOpenFor protected (m ∷ members) = IsOpen w c checks protected m members

  judge_open-IsOpenFor :
      (protected : List ℕ) (members : List Member) (v u : Verdict)
      → v.is_owner ≡ false
      → judge_open w c checks protected members v ≡ some u
      → u.cancel_operation ≡ false
      → IsOpenFor protected members
  judge_open-IsOpenFor protected [] v u o e k = tt
  judge_open-IsOpenFor protected (m ∷ members) v u o e k =
      judge_open_sound w c checks protected m members v u o e k

  -- A refusal, or the session as it was but for the errors.
  check_permissions_outcome :
      (s t : Session)
      → check_permissions w c s ≡ some t
      → ((t.cancel_operation ≡ true) × OnlyReports s.requests t.requests)
        ⊎ ((t.cancel_operation ≡ false)
            × (t.requests ≡ s.requests)
            × (t.members ≡ s.members)
            × ((protected : List ℕ) × (get_protected_roles w ≡ some protected)
                × IsOpenFor protected s.members))
  unfolding check_permissions OnlyReports
  check_permissions_outcome s t e =
      let (roles, protects, e1) = >>=-eq-some (get_protected_roles w) _ e in
      let (v, judged, e2) = >>=-eq-some (judge_open w c checks roles s.members _) _ e1 in
      let u : Session = record s { errors = v.errors; cancel_operation = v.cancel_operation } in
      elim (Bool-cases v.cancel_operation) [
        | inl k ↦
            let r =
              reject-Reports w c (codes "Error while warning member(s): ") u t
                (if-true v.cancel_operation _ _ k e2) in
            inl (r.same_cancel ∙ k, (r.added, r.appended, r.only_reports))
        | inr k ↦
            let same : u ≡ t = option_inj (if-false v.cancel_operation _ _ k e2) in
            inr (
              ap (λ x. x.cancel_operation) (sym same) ∙ k,
              ap (λ x. x.requests) (sym same),
              ap (λ x. x.members) (sym same),
              (roles, protects, judge_open-IsOpenFor roles s.members _ v refl judged k),
            )
      ]

  -- A warn command that returns is cancelled, and has then reported and warned nobody; or it is not,
  -- and is then granted for its members, if it has any: the bot's top role has the flag and every member
  -- is allowed.
  -- It has then first sent each member the warning, once and in order, if it has an interaction, and
  -- has only reported after that.
  pub warn_tells :
      (s s' : Session)
      → wrapper_function w c s ≡ some s'
      → ((s'.cancel_operation ≡ true) × OnlyReports s.requests s'.requests)
        ⊎ ((s'.cancel_operation ≡ false)
            × ((protected : List ℕ) × (get_protected_roles w ≡ some protected)
                × IsOpenFor protected s.members)
            × OnlyReports
                (s.requests ++ (if c.interaction then told c s.members else []))
                s'.requests)
  unfolding wrapper_function process_warnings process_response OnlyReports
  warn_tells s s' e =
      let (t, run, e1) = >>=-eq-some (check_permissions w c s) _ e in
      elim (check_permissions_outcome s t run) [
        | inl (k, (rest, q, a)) ↦
            let same : t ≡ s' = option_inj (if-true t.cancel_operation _ _ k e1) in
            inl (
              ap (λ x. x.cancel_operation) (sym same) ∙ k,
              (rest, ap (λ x. x.requests) (sym same) ∙ q, a),
            )
        | inr (k, q, m, granted) ↦
            let r =
              Safety.process_response-Reports w c kind (process_warnings c t) s'
                (if-false t.cancel_operation _ _ k e1) in
            inr (
              r.same_cancel ∙ k,
              granted,
              (
                r.added,
                r.appended
                    ∙ ap (λ x. x ++ r.added)
                        (ap (λ x. x ++ warning_requests c t.members) q
                          ∙ ap (λ x. s.requests ++ x)
                              (warning_requests-told c t.members
                                ∙ ap (λ x. if c.interaction then told c x else []) m)),
                r.only_reports,
              ),
            )
      ]
