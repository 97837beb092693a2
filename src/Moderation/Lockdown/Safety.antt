-- ===== src/Moderation/Lockdown/Safety.antt =====
-- What the lockdown commands of src/cogs/moderation/wrappers/lockdown come to.
use reactaio.Prelude.{
  ℕ, ◌≡◌, ◌⊎◌, inl, inr, refl, sym, ap, ◌∙◌, Bool, true, false, List, [], ◌∷◌, ◌++◌, Option, some,
  arith, Bool-cases, if-none, if-true, if-false, option_inj, length, suc, append-nil, if_true_lem,
  if_false_lem, codes, ◌≢◌,
}
use reactaio.Algorithm.{set_difference}
use reactaio.Moderation.World.{
  paginate_texts, World, Command, Embed, Request, Session, Value, Channel, channel_key,
}
use reactaio.Moderation.Roles.{top_role}
use reactaio.Moderation.Checks.Allowed.{>>=-eq-some}
use reactaio.Moderation.Rows.{is_null}
use reactaio.Moderation.Session.{has_error, send_errors}
use reactaio.Moderation.Session.Acts.{acts-append}
use reactaio.Moderation.Session.Reports.{
  Reports, Reports-acts, Reports-refl, Reports-pair, reply_with-Reports, send_errors-none,
}
use reactaio.Moderation.Locks.{Locks, are_all_errors, finish}
use reactaio.Moderation.Locks.Answer.{
  changed, change_target, change_target-IsSilent, finish-Reports,
}
use reactaio.Moderation.Lockdown.{
  Kind, lockdowns_get, check_permissions, judge, show_errors, find_channels, is_only_null,
  edit_requests, process_lockdown, respond_errors, respond_done, process_response, wrapper_function,
}

judge-requests :
    (bot_can empty : Bool) (s : Session) → (judge bot_can empty s).requests ≡ s.requests
unfolding judge
judge-requests true true s = refl
judge-requests true false s = refl
judge-requests false true s = refl
judge-requests false false s = refl

show_errors-changed : (s : Session) → changed (show_errors s).requests ≡ changed s.requests
unfolding show_errors changed
show_errors-changed s = elim (Bool-cases s.cancel_operation) [
  | inl i ↦
      ap (λ (x : Session). changed x.requests) (if_true_lem s.cancel_operation _ _ i)
      ∙ (acts-append change_target s.requests (paginate_texts false _ ∷ []) ∙ append-nil _)
  | inr i ↦ ap (λ (x : Session). changed x.requests) (if_false_lem s.cancel_operation _ _ i)
]

module _ (w : World) (c : Command) (k : Kind) where
  check_permissions-changed :
      (s t : Session) → check_permissions w c s ≡ some t → changed t.requests ≡ changed s.requests
  unfolding check_permissions
  check_permissions-changed s t e =
      let (bot, _, e1) = >>=-eq-some (top_role w w.bot_member) _ e in
      let (author, _, e2) = >>=-eq-some (top_role w c.author) _ e1 in
      let (bot_top, _, e3) = >>=-eq-some (w.role_at bot) _ e2 in
      let (result, _, e4) = >>=-eq-some (lockdowns_get w) _ e3 in
      let (empty, _, e5) = >>=-eq-some (is_null result (codes "lockdown_channels")) _ e4 in
      ap (λ x. changed x.requests) (sym (option_inj e5))
      ∙ (show_errors-changed (judge bot_top.has_manage_roles empty s)
          ∙ ap changed (judge-requests bot_top.has_manage_roles empty s))

  -- The requests for the channels are made, or none.
  process_lockdown_outcome :
      (parse_psql_array : Option Value → List ℕ) (l l' : Locks)
      → l.channels_with_errors ≡ []
      → process_lockdown w k parse_psql_array l ≡ some l'
      → (changed l'.base.requests ≡ changed l.base.requests) ⊎ (are_all_errors l' ≡ false)
  unfolding process_lockdown are_all_errors edit_requests
  process_lockdown_outcome parse_psql_array l l' n e =
      let (_, e0) = if-none l.base.moved e in
      let (result, _, e1) = >>=-eq-some (lockdowns_get w) _ e0 in
      let (empty, _, e2) = >>=-eq-some (is_null result (codes "lockdown_channels")) _ e1 in
      let ((channels, not_found), _, e3) =
        >>=-eq-some
          (find_channels w (parse_psql_array (result.row (codes "lockdown_channels"))) l.channels
            [])
          _ e2 in
      elim (Bool-cases (is_only_null channels)) [
        | inl i ↦ inl (
            ap (λ x. changed x.base.requests)
              (sym (option_inj (if-true (is_only_null channels) _ _ i e3))))
        | inr i ↦
            let (requests, run, e4) =
              >>=-eq-some (edit_requests k channels) _
                (if-false (is_only_null channels) _ _ i e3) in
            let same = option_inj e4 in
            go channels requests run (ap (λ x. x.base.requests) (sym same))
              (ap (λ x. x.channels) (sym same)) (ap (λ x. x.channels_with_errors) (sym same) ∙ n)
      ]
    where
      go :
          (channels : List Channel) (requests : List Request)
          → edit_requests k channels ≡ some requests
          → l'.base.requests ≡ l.base.requests ++ requests
          → l'.channels ≡ channels
          → l'.channels_with_errors ≡ []
          → (changed l'.base.requests ≡ changed l.base.requests) ⊎ (are_all_errors l' ≡ false)
      go [] requests run q r p = inl (
          ap changed (
            q
            ∙ (ap (λ x. l.base.requests ++ x) (sym (option_inj run)) ∙ append-nil l.base.requests)))
      go (a ∷ channels) requests run q r p =
          let m : length l'.channels_with_errors ≡ 0 = ap length p in
          let o : length l'.channels ≡ suc (length channels) = ap length r in
          inr (ground (arith, m, o))

  -- An answer that has something to tell throws.
  respond_done_fails :
      (l : Locks) (embeds all_embeds : List Embed) (s s' : Session)
      → w.executes_after_commit ≡ false
      → are_all_errors l ≡ false
      → respond_done w c k l embeds s ≢ some (all_embeds, s')
  unfolding respond_done
  respond_done_fails l embeds all_embeds s s' x n e =
      let (locked, _, e1) =
        >>=-eq-some (set_difference channel_key w.past_channels l.channels l.channels []) _
          (if-false (are_all_errors l) _ _ n e) in
      let (_, e2) = if-none s.moved e1 in
      let (row, _, e3) = >>=-eq-some w.case_id _ e2 in
      let (last, _, e4) = >>=-eq-some row _ e3 in
      absurd (ground (arith, if-false w.executes_after_commit _ _ x e4))

  respond_errors-Reports :
      (l : Locks) (s' : Session) (embeds : List Embed)
      → respond_errors w c k l ≡ some (embeds, s')
      → Reports l.base s'
  unfolding respond_errors
  respond_errors-Reports l s' embeds e = elim (Bool-cases (has_error l.base)) [
    | inr i ↦
        Reports-pair [] embeds l.base l.base s' (Reports-refl l.base)
          (if-false (has_error l.base) _ _ i e)
    | inl i ↦
        let e1 = if-true (has_error l.base) _ _ i e in
        elim (Bool-cases c.interaction) [
          | inl j ↦
              Reports-pair _ embeds l.base _ s'
                (reply_with-Reports w c (are_all_errors l) _ _ l.base)
                (if-true c.interaction _ _ j e1)
          | inr j ↦
              let (t, run, _) =
                >>=-eq-some (send_errors w c _ l.base) _ (if-false c.interaction _ _ j e1) in
              absurd (ground (arith, sym (send_errors-none w c _ l.base) ∙ run))
        ]
  ]

  process_response_outcome :
      (l l' : Locks)
      → w.executes_after_commit ≡ false
      → process_response w c k l ≡ some l'
      → (are_all_errors l ≡ true) × (changed l'.base.requests ≡ changed l.base.requests)
  unfolding process_response respond_done changed
  process_response_outcome l l' x e =
      let (_, e0) = if-none l.base.moved e in
      let ((embeds, s1), run1, e1) = >>=-eq-some (respond_errors w c k l) _ e0 in
      let ((all_embeds, s2), run2, e2) = >>=-eq-some (respond_done w c k l embeds s1) _ e1 in
      let (s3, run3, e3) = >>=-eq-some (finish c k.name _ all_embeds s2) _ e2 in
      elim (Bool-cases (are_all_errors l)) [
        | inr i ↦ absurd (respond_done_fails l embeds all_embeds s1 s2 x i run2)
        | inl i ↦
            let kept : s1 ≡ s2 =
              ap (λ x. x.1) (option_inj (if-true (are_all_errors l) _ _ i run2)) in
            (
              i,
              ap (λ x. changed x.base.requests) (sym (option_inj e3))
                  ∙ (Reports-acts change_target s2 s3 change_target-IsSilent
                        (finish-Reports w c k.name _ all_embeds s2 s3 run3)
                      ∙ (ap (λ x. changed x.requests) (sym kept)
                          ∙ Reports-acts change_target l.base s1 change_target-IsSilent
                              (respond_errors-Reports l s1 embeds run1))),
            )
      ]

  -- Where the database takes no statement after a commit, a lockdown, or the end of one, that returns
  -- has changed the permissions of no channel. It began without channels that have errors.
  pub returns-unchanged :
      (parse_psql_array : Option Value → List ℕ) (l l' : Locks)
      → w.executes_after_commit ≡ false
      → l.channels_with_errors ≡ []
      → wrapper_function w c k parse_psql_array l ≡ some l'
      → changed l'.base.requests ≡ changed l.base.requests
  unfolding wrapper_function
  returns-unchanged parse_psql_array l l' x n e =
      let (s, run, rest) = >>=-eq-some (check_permissions w c l.base) _ e in
      let checked = check_permissions-changed l.base s run in
      elim (Bool-cases s.cancel_operation) [
        | inl i ↦
            ap (λ y. changed y.base.requests)
              (sym (option_inj (if-true s.cancel_operation _ _ i rest)))
            ∙ checked
        | inr i ↦
            let (m, locked, answered) =
              >>=-eq-some (process_lockdown w k parse_psql_array (record l { base = s })) _
                (if-false s.cancel_operation _ _ i rest) in
            let (all_errors, kept) = process_response_outcome m l' x answered in
            elim (process_lockdown_outcome parse_psql_array (record l { base = s }) m n locked) [
              | inl q ↦ kept ∙ (q ∙ checked)
              | inr q ↦ absurd (ground (arith, sym all_errors ∙ q))
            ]
      ]
