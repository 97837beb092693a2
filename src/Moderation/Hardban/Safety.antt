-- ===== src/Moderation/Hardban/Safety.antt =====
-- Whom the hard ban command of src/cogs/moderation/wrappers/hardban/hardban_wrapper.cpp bans.
use reactaio.Moderation.Bans.Safety.{process_response-ReportsBase}
use reactaio.Moderation.Bans.Wrapper.{wrapper-Ended}
use reactaio.Prelude.{
  ℕ, ◌≡◌, ◌⊎◌, refl, sym, ap, ◌∙◌, true, false, List, [], ◌∷◌, ◌++◌, some, if◌then◌else◌, Text,
  null, map, codes, arith, Bool-cases, inl, inr, if-true, if-false, if-none, option_inj, Bool, not,
  ◌&&◌,
}
use reactaio.Moderation.World.{User, Member, Role, World, Command, Session}
use reactaio.Moderation.Roles.{get_roles_sorted, top_role, get_protected_roles}
use reactaio.Moderation.Checks.{Verdict, check_protected, report}
use reactaio.Moderation.Checks.Allowed.{>>=-eq-some, check_protected_cases}
use reactaio.UniqueVector.Access.{front}
use reactaio.Moderation.Session.{reject}
use reactaio.Moderation.Session.Acts.{acts, acts-append, banned, ban_target, ban_target-IsSilent}
use reactaio.Moderation.Session.Reports.{Reports-acts, reject-Reports}
use reactaio.Moderation.Hybrid.{Hybrid, collect}
use reactaio.Moderation.Hardban.{
  texts, check_member, check_members, check_hardban_possible, hardban_requests, ban_remove_seconds,
  process_hardbans, check_permissions, wrapper_function, kind, invalid_title, process_response,
  bot_lacks,
}

begun : Session → Verdict
begun s = record { errors = s.errors; cancel_operation = s.cancel_operation; is_owner = false }

title : Text
title = codes "Error while hard banning member(s): "

module _ (w : World) (c : Command) where
  -- A verdict that is the same, or cancelled.
  Grows : Verdict → Verdict → Type 0
  Grows v u = (u ≡ v) ⊎ (u.cancel_operation ≡ true)

  Grows-trans : (v u t : Verdict) → Grows v u → Grows u t → Grows v t
  unfolding Grows
  Grows-trans v u t (inl p) (inl q) = inl (q ∙ p)
  Grows-trans v u t (inr p) (inl q) = inr (ap (λ x. x.cancel_operation) q ∙ p)
  Grows-trans v u t a (inr q) = inr q

  check_member-Grows :
      (bot_top member_top : Role) (m : Member) (v : Verdict)
      → Grows v (check_member w c bot_top member_top m v)
  unfolding check_member Grows
  check_member-Grows bot_top member_top m v = ground arith

  check_members-Grows :
      (protected_roles : List ℕ) (bot_top : Role) (members : List Member) (v u : Verdict)
      → check_members w c protected_roles bot_top members v ≡ some u
      → Grows v u
  unfolding check_members Grows
  check_members-Grows protected_roles bot_top [] v u e = inl (sym (option_inj e))
  check_members-Grows protected_roles bot_top (m ∷ members) v u e =
      let (roles, _, e1) = >>=-eq-some (get_roles_sorted w m.roles true) _ e in
      let (top, _, e2) = >>=-eq-some (front roles) _ e1 in
      let (member_top, _, e3) = >>=-eq-some (w.role_at top) _ e2 in
      let v1 = check_member w c bot_top member_top m v in
      let (v2, run, e4) =
        >>=-eq-some (check_protected w texts c.author protected_roles roles v1) _ e3 in
      Grows-trans v v1 u (check_member-Grows bot_top member_top m v) (
        Grows-trans v1 v2 u
          (elim (check_protected_cases w texts c.author false protected_roles bot_top bot_top roles
            v1 v2 run) [ inl (same, _) ↦ inl same | inr cancelled ↦ inr cancelled ])
          (check_members-Grows protected_roles bot_top members v2 u e4))

  possible-Grows :
      (protected_roles : List ℕ) (members : List Member) (v u : Verdict)
      → check_hardban_possible w c protected_roles members v ≡ some u
      → Grows v u
  unfolding check_hardban_possible Grows
  possible-Grows protected_roles members v u e =
      let (bot, _, e1) = >>=-eq-some (top_role w w.bot_member) _ e in
      let (roles, _, e2) = >>=-eq-some (get_roles_sorted w c.author.roles true) _ e1 in
      elim (Bool-cases (null members)) [
        | inl n ↦ inl (sym (option_inj (if-true (null members) _ _ n e2)))
        | inr n ↦
            let (bot_top, _, e3) =
              >>=-eq-some (w.role_at bot) _ (if-false (null members) _ _ n e2) in
            check_members-Grows protected_roles bot_top members v u e3
      ]

  -- The end of the checks, where a cancelled verdict is told.
  settle :
      (s s' : Session) (u : Verdict)
      → Grows (begun s) u
      → (let t : Session = record s { errors = u.errors; cancel_operation = u.cancel_operation } in
          if u.cancel_operation then reject w c title t else some t)
        ≡ some s'
      → (banned s'.requests ≡ banned s.requests) × (s'.cancel_operation ≡ false → s' ≡ s)
  unfolding Grows begun banned
  settle s s' u g e =
      let t : Session = record s { errors = u.errors; cancel_operation = u.cancel_operation } in
      elim (Bool-cases u.cancel_operation) [
        | inl i ↦
            let r = reject-Reports w c title t s' (if-true u.cancel_operation _ _ i e) in
            (
              Reports-acts ban_target t s' ban_target-IsSilent r,
              λ k. absurd (ground (arith, k, r.same_cancel, i)),
            )
        | inr i ↦
            let same = option_inj (if-false u.cancel_operation _ _ i e) in
            (
              ap (λ x. acts ban_target x.requests) (sym same),
              λ k. elim g [
                | inl q ↦
                    sym same
                    ∙ ap
                        (λ x. record s { errors = x.errors; cancel_operation = x.cancel_operation })
                        q
                | inr q ↦ absurd (ground (arith, q, i))
              ],
            )
      ]

  lacks-Grows :
      (bot_top : Role) (v : Verdict)
      → Grows v (if bot_top.has_ban_members then v else report bot_lacks v)
  unfolding Grows
  lacks-Grows bot_top v = ground arith

  -- The author is the owner, where the checks let the command go on.
  check_permissions_sound :
      (users : List ℕ) (s s' : Session)
      → check_permissions w c users s ≡ some s'
      → (banned s'.requests ≡ banned s.requests)
        × (s'.cancel_operation ≡ false → (s' ≡ s) × (c.author.is_guild_owner ≡ true))
  unfolding check_permissions begun title
  check_permissions_sound users s s' e = elim (Bool-cases (null s.members && null users)) [
    | inl i ↦ refused _ (if-true (null s.members && null users) _ _ i e)
    | inr i ↦
        let e1 = if-false (null s.members && null users) _ _ i e in
        elim (Bool-cases c.author.is_guild_owner) [
          | inr o ↦ refused _ (if-true (not c.author.is_guild_owner) _ _ (ground (arith, o)) e1)
          | inl o ↦
              let e2 = if-false (not c.author.is_guild_owner) _ _ (ground (arith, o)) e1 in
              let (bot, _, e3) = >>=-eq-some (top_role w w.bot_member) _ e2 in
              let (roles, _, e4) = >>=-eq-some (get_roles_sorted w c.author.roles true) _ e3 in
              let (protected_roles, _, e5) = >>=-eq-some (get_protected_roles w) _ e4 in
              let (bot_top, _, e6) = >>=-eq-some (w.role_at bot) _ e5 in
              let v' = if bot_top.has_ban_members then begun s else report bot_lacks (begun s) in
              let (u, run, e7) =
                >>=-eq-some (check_hardban_possible w c protected_roles s.members v') _ e6 in
              let (kept, same) =
                settle s s' u
                  (Grows-trans (begun s) v' u (lacks-Grows bot_top (begun s))
                    (possible-Grows protected_roles s.members v' u run))
                  e7 in
              (kept, λ k. (same k, o))
        ]
  ]
    where
      refused :
          (errors : List Text)
          → some (record s { errors = errors; cancel_operation = true }) ≡ some s'
          → (banned s'.requests ≡ banned s.requests)
            × (s'.cancel_operation ≡ false → (s' ≡ s) × (c.author.is_guild_owner ≡ true))
      refused errors e =
          let same = option_inj e in
          (
            ap (λ x. banned x.requests) (sym same),
            λ k. absurd (ground (arith, k, ap (λ x. x.cancel_operation) same)),
          )

  banned-hardban_requests :
      (seconds : ℕ) (users : List User)
      → banned (hardban_requests c seconds users) ≡ map (λ u. u.id) users
  unfolding banned acts hardban_requests
  banned-hardban_requests seconds [] = refl
  banned-hardban_requests seconds (u ∷ users) = elim (Bool-cases c.interaction) [
    | inl i ↦ rw (i, hardban_requests) (ap (λ x. u.id ∷ x) (banned-hardban_requests seconds users))
    | inr i ↦ rw (i, hardban_requests) (ap (λ x. u.id ∷ x) (banned-hardban_requests seconds users))
  ]

  process_hardbans-banned :
      (h h' : Hybrid)
      → process_hardbans w c h ≡ some h'
      → banned h'.base.requests ≡ banned h.base.requests ++ map (λ u. u.id) h.users
  unfolding process_hardbans banned
  process_hardbans-banned h h' e =
      let (_, e0) = if-none h.base.moved e in
      let (seconds, _, e1) = >>=-eq-some (ban_remove_seconds w) _ e0 in
      rw (sym (option_inj e1)) (
        acts-append ban_target h.base.requests (hardban_requests c seconds h.users)
        ∙ ap (λ x. banned h.base.requests ++ x) (banned-hardban_requests seconds h.users))

  -- A hard ban command that begins with no ban, and returns, has collected its snowflakes, and has
  -- banned nobody, and then an invalid user was among them or the command is cancelled; or its author
  -- is the owner of the guild, and then each collected user is banned, once and in order.
  pub hardban_only_by_owner :
      (h h' : Hybrid)
      → banned h.base.requests ≡ []
      → wrapper_function w c h ≡ some h'
      → (invalid : Bool) × (h1 : Hybrid) × (collect w h.snowflakes h ≡ some (invalid, h1))
        × (((banned h'.base.requests ≡ []) × ((invalid ≡ true) ⊎ (h'.base.cancel_operation ≡ true)))
            ⊎ ((invalid ≡ false)
                × (c.author.is_guild_owner ≡ true)
                × (banned h'.base.requests ≡ map (λ u. u.id) h1.users)))
  unfolding wrapper_function process_response banned
  hardban_only_by_owner h h' n e =
      wrapper-Ended w c true invalid_title (check_permissions w c) (process_hardbans w c)
        (process_response w c) ban_target (λ s. c.author.is_guild_owner ≡ true) (λ h. Unit)
        (λ h. map (λ u. u.id) h.users) h h' check_permissions_sound
        (λ h h' r. process_hardbans-banned h h') (process_response-ReportsBase w c kind)
        ban_target-IsSilent n (λ h1 run. tt) e
