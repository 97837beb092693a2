-- ===== src/Moderation/Locks/Safety.antt =====
-- Which channels the lock and unlock commands of src/cogs/moderation/wrappers/(un)lock change.
use reactaio.Prelude.{
  ℕ, ◌≡◌, ◌⊎◌, refl, sym, ap, ◌∙◌, Bool, true, false, List, [], ◌∷◌, ◌++◌, some, inl, inr, if-true,
  if-false, option_inj, map, null, if◌then◌else◌,
}
use reactaio.UniqueVector.{insert}
use reactaio.Moderation.World.{Role, Channel, channel_key, World, Command, Session}
use reactaio.Moderation.Roles.{top_role, get_permitted_roles}
use reactaio.Moderation.Checks.Allowed.{>>=-eq-some}
use reactaio.Moderation.Session.{reject}
use reactaio.Moderation.Session.Acts.{acts, acts-append}
use reactaio.Moderation.Session.Reports.{Reports-acts, reject-Reports}
use reactaio.Moderation.Locks.Answer.{
  changed, change_target, change_target-IsSilent, process_response_keeps,
}
use reactaio.Moderation.Locks.{
  Locks, Kind, is_refused, judge, check_permissions, lock_requests, process_locks, wrapper_function,
}

changed-lock_requests :
    (k : Kind) (channels : List Channel)
    → changed (lock_requests k channels) ≡ map (λ a. a.id) channels
unfolding changed acts lock_requests
changed-lock_requests k [] = refl
changed-lock_requests k (a ∷ channels) = ap (λ x. a.id ∷ x) (changed-lock_requests k channels)

-- The top roles let the bot and the author manage roles, or the guild permits the author's.
pub record IsPermitted (w : World) (c : Command) (k : Kind) : Type 0 where
  pub bot : ℕ
  pub author : ℕ
  pub bot_top : Role
  pub author_top : Role
  pub roles : List ℕ
  pub is_bot_top : top_role w w.bot_member ≡ some bot
  pub is_author_top : top_role w c.author ≡ some author
  pub at_bot : w.role_at bot ≡ some bot_top
  pub at_author : w.role_at author ≡ some author_top
  pub permits : get_permitted_roles w k.name ≡ some roles
  pub bot_can : bot_top.has_manage_roles ≡ true
  pub author_can : is_refused roles author author_top.has_manage_roles ≡ false

module _ (w : World) (c : Command) (k : Kind) where
  process_locks_changes :
      (l l' : Locks)
      → process_locks w k l ≡ some l'
      → ((if null l.channels
            then insert channel_key w.past_channels w.current_channel []
            else some l.channels)
          ≡ some l'.channels)
        × (changed l'.base.requests ≡ changed l.base.requests ++ map (λ a. a.id) l'.channels)
  unfolding process_locks changed
  process_locks_changes l l' e =
      let (channels, run, e1) = >>=-eq-some (if null l.channels then _ else _) _ e in
      let same = option_inj e1 in
      (
        run ∙ ap (λ x. some x.channels) same,
        ap (λ x. changed x.base.requests) (sym same)
            ∙ (acts-append change_target l.base.requests (lock_requests k channels)
                ∙ (ap (λ x. changed l.base.requests ++ x) (changed-lock_requests k channels)
                    ∙ ap (λ x. changed l.base.requests ++ map (λ a. a.id) x.channels) same)),
      )

  check_permissions_outcome :
      (s t : Session)
      → s.cancel_operation ≡ false
      → check_permissions w c k s ≡ some t
      → ((t.cancel_operation ≡ true) × (changed t.requests ≡ changed s.requests))
        ⊎ ((t ≡ s) × IsPermitted w c k)
  unfolding check_permissions judge changed
  check_permissions_outcome s t n e =
      let (bot, a, e1) = >>=-eq-some (top_role w w.bot_member) _ e in
      let (author, b, e2) = >>=-eq-some (top_role w c.author) _ e1 in
      let (bot_top, d, e3) = >>=-eq-some (w.role_at bot) _ e2 in
      let (roles, f, e4) = >>=-eq-some (get_permitted_roles w k.name) _ e3 in
      let (author_top, g, e5) = >>=-eq-some (w.role_at author) _ e4 in
      let bot_can = bot_top.has_manage_roles in
      let refuses = is_refused roles author author_top.has_manage_roles in
      elim (concluded bot_can refuses e5) [
        | inl x ↦ inl x
        | inr (same, i, j) ↦ inr (
          same,
          record {
            bot = bot;
            author = author;
            bot_top = bot_top;
            author_top = author_top;
            roles = roles;
            is_bot_top = a;
            is_author_top = b;
            at_bot = d;
            at_author = g;
            permits = f;
            bot_can = i;
            author_can = j;
          },
        )
      ]
    where
      stopped :
          {bot_can refuses : Bool} (u : Session)
          → u.cancel_operation ≡ true
          → u.requests ≡ s.requests
          → (if u.cancel_operation then reject w c k.refused_title u else some u) ≡ some t
          → ((t.cancel_operation ≡ true) × (changed t.requests ≡ changed s.requests))
            ⊎ ((t ≡ s) × (bot_can ≡ true) × (refuses ≡ false))
      stopped u h q r =
          let reports =
            reject-Reports w c k.refused_title u t (if-true u.cancel_operation _ _ h r) in
          inl (
            reports.same_cancel ∙ h,
            Reports-acts change_target u t change_target-IsSilent reports ∙ ap changed q,
          )

      concluded :
          (bot_can refuses : Bool)
          → (if (judge k bot_can refuses s).cancel_operation
              then reject w c k.refused_title (judge k bot_can refuses s)
              else some (judge k bot_can refuses s))
            ≡ some t
          → ((t.cancel_operation ≡ true) × (changed t.requests ≡ changed s.requests))
            ⊎ ((t ≡ s) × (bot_can ≡ true) × (refuses ≡ false))
      concluded true true x = stopped (judge k true true s) refl refl x
      concluded true false x =
          inr (sym (option_inj (if-false s.cancel_operation _ _ n x)), refl, refl)
      concluded false true x = stopped (judge k false true s) refl refl x
      concluded false false x = stopped (judge k false false s) refl refl x

  -- A lock or unlock command that begins with no cancellation and no changed channel, and returns, has
  -- refused, and then no channel is changed, or it is permitted, and then each of its channels is
  -- changed, once and in order: those that it was given, or, if there are none, what inserting the
  -- current channel into an empty vector gives.
  pub wrapper_function-changed :
      (l l' : Locks)
      → l.base.cancel_operation ≡ false
      → changed l.base.requests ≡ []
      → wrapper_function w c k l ≡ some l'
      → ((l'.base.cancel_operation ≡ true) × (changed l'.base.requests ≡ []))
        ⊎ (IsPermitted w c k
            × ((if null l.channels
                  then insert channel_key w.past_channels w.current_channel []
                  else some l.channels)
                ≡ some l'.channels)
            × (changed l'.base.requests ≡ map (λ a. a.id) l'.channels))
  unfolding wrapper_function changed
  wrapper_function-changed l l' n h e =
      let (s, run, rest) = >>=-eq-some (check_permissions w c k l.base) _ e in
      elim (check_permissions_outcome l.base s n run) [
        | inl (i, q) ↦
            let same = option_inj (if-true s.cancel_operation _ _ i rest) in
            inl (
              ap (λ x. x.base.cancel_operation) (sym same) ∙ i,
              ap (λ x. changed x.base.requests) (sym same) ∙ (q ∙ h),
            )
        | inr (same, permitted) ↦
            let (m, locked, answered) =
              >>=-eq-some (process_locks w k (record l { base = s })) _
                (if-false s.cancel_operation _ _ (ap (λ x. x.cancel_operation) same ∙ n) rest) in
            let (targets, requests) = process_locks_changes (record l { base = s }) m locked in
            let (kept, channels) = process_response_keeps w c k m l' answered in
            inr (
              permitted,
              targets ∙ ap (λ x. some x) (sym channels),
              kept
                  ∙ (requests
                      ∙ (ap (λ x. changed x.requests ++ map (λ a. a.id) m.channels) same
                          ∙ (ap (λ x. x ++ map (λ a. a.id) m.channels) h
                              ∙ ap (λ x. map (λ a. a.id) x) (sym channels)))),
            )
      ]
