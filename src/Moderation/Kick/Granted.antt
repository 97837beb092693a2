-- ===== src/Moderation/Kick/Granted.antt =====
-- That the kick command of kick_wrapper.cpp comes to its end when it is granted.
use reactaio.Prelude.{
  if_true_lem, if_false_lem, ◌≡◌, refl, ap, ◌∙◌, false, ltb, ◌&&◌, List, [], ◌∷◌, ◌++◌, some,
  Bool-cases, Option-cases, inl, inr, Text, map, length, codes, All, ◌⊎◌, none, true, arith,
}
use reactaio.UniqueVector.Insert.{Quiet}
use reactaio.Algorithm.{set_difference, set_symmetric_difference}
use reactaio.Algorithm.Sets.{set_difference_lem, set_symmetric_difference_lem}
use reactaio.Moderation.World.{World, Command, Embed, Session, member_key, edit_response}
use reactaio.Moderation.Checks.Allowed.{bind_lem}
use reactaio.Moderation.Policy.Granted.{
  IsGranted, check_permissions_complete, check_permissions_refused,
}
use reactaio.Moderation.Session.{log_command_invoke, request, are_all_errors, has_error}
use reactaio.Moderation.Session.Acts.{kicked}
use reactaio.Moderation.Session.Reports.{Reports-kicked}
use reactaio.Moderation.Kick.{
  policy, kick_name, check_permissions, process_kicks, respond_errors, kicked_embed, log_embed,
  log_to, respond_kicked, respond, process_response, wrapper_function,
}
use reactaio.Moderation.Kick.Safety.{process_kicks-kicked, process_response-Reports}

module _ (w : World) (c : Command) where
  log_to-moved :
      (column : Text) (embed : Embed) (s : Session) → (log_to w column embed s).moved ≡ s.moved
  unfolding log_to
  log_to-moved column embed s = elim (Option-cases (w.webhooks column)) [
    | inl e ↦ rw (e, log_to) refl
    | inr (url, e) ↦ rw (e, log_to) refl
  ]

  log_returns :
      (s : Session) → s.moved ≡ false → (s' : Session) × (log_command_invoke kick_name s ≡ some s')
  unfolding log_command_invoke
  log_returns s k = (_, if_false_lem s.moved _ _ k)

  respond_returns :
      (embeds : List Embed) (s : Session)
      → s.moved ≡ false
      → ltb 2 (length embeds) ≡ false
      → (s' : Session) × (respond c embeds s ≡ some s')
  unfolding respond
  respond_returns embeds s k few = elim (Bool-cases c.interaction) [
    | inl e ↦
        let (s', run) =
          log_returns (request (edit_response (are_all_errors s && has_error s) embeds) s) k in
        (
          s',
          if_true_lem c.interaction _ _ e
              ∙ (ap (log_command_invoke kick_name) (if_false_lem (ltb 2 (length embeds)) _ _ few)
                  ∙ run),
        )
    | inr e ↦ (_, if_false_lem c.interaction _ _ e ∙ if_false_lem s.moved _ _ k)
  ]

  respond_kicked_returns :
      (s : Session)
      → (are_all_errors s ≡ true) ⊎ (w.lacks_webhooks ≡ false)
      → s.moved ≡ false
      → All (Quiet member_key w.past_members) s.members
      → All (Quiet member_key w.past_members) s.members_with_errors
      → (embeds : List Embed) × (s' : Session) × (respond_kicked w c [] s ≡ some (embeds, s'))
        × (s'.moved ≡ false)
        × (ltb 2 (length embeds) ≡ false)
  unfolding respond_kicked
  respond_kicked_returns s l k q r = elim (Bool-cases (are_all_errors s)) [
    | inl e ↦ ([], s, if_true_lem (are_all_errors s) _ _ e, k, refl)
    | inr e ↦
        let row : w.lacks_webhooks ≡ false = elim l [
          | inl f ↦ absurd (ground (arith, e, f))
          | inr f ↦ f
        ] in
        let (out, run, _) =
          set_difference_lem member_key w.past_members s.members s.members_with_errors [] q in
        let (all_kicked, run', _) =
          set_symmetric_difference_lem member_key w.past_members s.members s.members_with_errors out
            q r in
        let t1 = log_to w (codes "member_kick") (log_embed c all_kicked) s in
        let t2 = log_to w (codes "modlog") (log_embed c all_kicked) t1 in
        (
          kicked_embed w c all_kicked ∷ [],
          log_to w (codes "public_modlog") (log_embed c all_kicked) t2,
          if_false_lem (are_all_errors s) _ _ e
              ∙ (bind_lem
                    (set_difference member_key w.past_members s.members s.members_with_errors []) _
                    out run
                  ∙ (bind_lem
                        (set_symmetric_difference member_key w.past_members s.members
                          s.members_with_errors out)
                        _ all_kicked run'
                      ∙ (if_false_lem s.moved _ _ k ∙ if_false_lem w.lacks_webhooks _ _ row))),
          log_to-moved _ _ t2 ∙ (log_to-moved _ _ t1 ∙ (log_to-moved _ _ s ∙ k)),
          refl,
        )
  ]

  -- Where the guild has no row of webhooks, and somebody has been kicked, the answer throws.
  respond_kicked_throws :
      (s : Session)
      → are_all_errors s ≡ false
      → w.lacks_webhooks ≡ true
      → s.moved ≡ false
      → All (Quiet member_key w.past_members) s.members
      → All (Quiet member_key w.past_members) s.members_with_errors
      → respond_kicked w c [] s ≡ none
  unfolding respond_kicked
  respond_kicked_throws s e l k q r =
      let (out, run, _) =
        set_difference_lem member_key w.past_members s.members s.members_with_errors [] q in
      let (all_kicked, run', _) =
        set_symmetric_difference_lem member_key w.past_members s.members s.members_with_errors out q
          r in
      if_false_lem (are_all_errors s) _ _ e
      ∙ (bind_lem (set_difference member_key w.past_members s.members s.members_with_errors []) _
            out run
          ∙ (bind_lem
                (set_symmetric_difference member_key w.past_members s.members s.members_with_errors
                  out)
                _ all_kicked run'
              ∙ (if_false_lem s.moved _ _ k ∙ if_true_lem w.lacks_webhooks _ _ l)))

  respond_errors_none : (s : Session) → s.errors ≡ [] → respond_errors w c s ≡ some ([], s)
  unfolding respond_errors has_error
  respond_errors_none s e = if_false_lem (has_error s) _ _ (rw e refl)

  process_response_returns :
      (s : Session)
      → (are_all_errors s ≡ true) ⊎ (w.lacks_webhooks ≡ false)
      → s.moved ≡ false
      → s.errors ≡ []
      → All (Quiet member_key w.past_members) s.members
      → All (Quiet member_key w.past_members) s.members_with_errors
      → (s' : Session) × (process_response w c s ≡ some s')
  unfolding process_response
  process_response_returns s l k n q r =
      let (embeds, t, run, k', few) = respond_kicked_returns s l k q r in
      let (s', runs) = respond_returns embeds t k' few in
      (
        s',
        if_false_lem s.moved _ _ k
            ∙ (bind_lem (respond_errors w c s) _ ([], s) (respond_errors_none s n)
                ∙ (bind_lem (respond_kicked w c [] s) _ (embeds, t) run ∙ runs)),
      )

  process_response_throws :
      (s : Session)
      → are_all_errors s ≡ false
      → w.lacks_webhooks ≡ true
      → s.moved ≡ false
      → s.errors ≡ []
      → All (Quiet member_key w.past_members) s.members
      → All (Quiet member_key w.past_members) s.members_with_errors
      → process_response w c s ≡ none
  unfolding process_response
  process_response_throws s e l k n q r =
      if_false_lem s.moved _ _ k
      ∙ (bind_lem (respond_errors w c s) _ ([], s) (respond_errors_none s n)
          ∙ rw (respond_kicked_throws s e l k q r) refl)

  -- The answer of a command whose checks pass.
  answered :
      (s : Session)
      → IsGranted w c policy s.members
      → s.cancel_operation ≡ false
      → w.refuses_nested ≡ false
      → wrapper_function w c s ≡ process_response w c (process_kicks c s)
  unfolding wrapper_function check_permissions
  answered s g o n =
      bind_lem (check_permissions w c s) _ s (check_permissions_complete w c policy s o n g)
      ∙ if_false_lem s.cancel_operation _ _ o

  refused : (s : Session) → w.refuses_nested ≡ true → wrapper_function w c s ≡ none
  unfolding wrapper_function check_permissions
  refused s n = rw (check_permissions_refused w c policy s n) refl

  -- A granted kick command comes to its end, and has then asked for the kick of each member, once
  -- and in order, after what was asked before, except in two cases, in which it throws: the database
  -- refuses a second transaction while that of the check is live, or the guild has no row of webhooks
  -- and not all members have met errors. It begins with no error and no cancellation, its command has
  -- not been moved, and reads behind the last element match no member.
  pub wrapper_function_granted :
      (s : Session)
      → IsGranted w c policy s.members
      → s.cancel_operation ≡ false
      → s.moved ≡ false
      → s.errors ≡ []
      → All (Quiet member_key w.past_members) s.members
      → All (Quiet member_key w.past_members) s.members_with_errors
      → (((w.refuses_nested ≡ true) ⊎ ((w.lacks_webhooks ≡ true) × (are_all_errors s ≡ false)))
          × (wrapper_function w c s ≡ none))
        ⊎ ((w.refuses_nested ≡ false)
            × ((s' : Session) × (wrapper_function w c s ≡ some s')
                × (kicked s'.requests ≡ kicked s.requests ++ map (λ m. m.user_id) s.members)))
  unfolding process_kicks are_all_errors
  wrapper_function_granted s g o k n q r =
      let asked = process_kicks c s in
      let ends : w.refuses_nested ≡ false
          → (are_all_errors asked ≡ true) ⊎ (w.lacks_webhooks ≡ false)
          → (s' : Session) × (wrapper_function w c s ≡ some s')
            × (kicked s'.requests ≡ kicked s.requests ++ map (λ m. m.user_id) s.members) =
        λ f l.
          let (s', run) = process_response_returns asked l k n q r in
          (
            s',
            answered s g o f ∙ run,
            Reports-kicked asked s' (process_response-Reports w c asked s' run)
                ∙ process_kicks-kicked w c s,
          ) in
      elim (Bool-cases w.refuses_nested) [
        | inl f ↦ inl (inl f, refused s f)
        | inr f ↦ elim (Bool-cases (are_all_errors asked)) [
          | inl a ↦ inr (f, ends f (inl a))
          | inr a ↦ elim (Bool-cases w.lacks_webhooks) [
            | inl l ↦ inl (inr (l, a), answered s g o f ∙ process_response_throws asked a l k n q r)
            | inr l ↦ inr (f, ends f (inr l))
          ]
        ]
      ]
