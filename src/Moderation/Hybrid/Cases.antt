-- ===== src/Moderation/Hybrid/Cases.antt =====
-- The rows of the case log that src/cogs/moderation/wrappers/hybrid_wrapper.cpp inserts.
use reactaio.Prelude.{
  ◌≡◌, refl, ap, ◌∙◌, Bool, true, false, not, ◌&&◌, ◌||◌, List, [], ◌∷◌, ◌++◌, some, ◌==◌, Text,
  map, All, arith, if_false_lem, ==_refl, ℕ, none, ◌+◌, ◌%◌, ◌^◌, Option, sym, option_inj,
  Bool-cases, inl, inr, ==_iff,
}
use reactaio.UniqueVector.{insert, contains}
use reactaio.UniqueVector.Insert.{
  Quiet, sorted_insert, insert-Quiet, All-sorted_insert, contains-sorted_insert, All-insert,
}
use reactaio.Algorithm.{set_difference}
use reactaio.Algorithm.Sets.{set_difference_lem, All-set_difference}
use reactaio.Moderation.World.{
  Member, User, Target, member_target, user_target, valueless, World, user_key,
}
use reactaio.Moderation.Checks.Allowed.{bind_lem, >>=-eq-some}
use reactaio.Moderation.Session.{insert_cases, next_case}
use reactaio.Moderation.Session.Acts.{recorded}
use reactaio.Moderation.Kick.Cases.{recorded-insert_cases}
use reactaio.Moderation.Hybrid.{Hybrid, case_user, case_users, log_modcase, Option, ℕ}

module _ (w : World) where
  -- A snowflake with a value whose user in the log no read behind the last element matches.
  abbrev pub IsLogged : Target → Type 0
  IsLogged (member_target m) = Quiet user_key w.past_users (w.copy_user (w.user_of m))
  IsLogged (user_target u) = Quiet user_key w.past_users u
  IsLogged valueless = ⊥

  -- Whether the user is that of a snowflake in the log: a copy, for a member.
  abbrev pub logs : List Target → User → Bool
  logs [] v = false
  logs (member_target m ∷ targets) v =
      user_key (w.copy_user (w.user_of m)) == user_key v || logs targets v
  logs (user_target u ∷ targets) v = user_key u == user_key v || logs targets v
  logs (valueless ∷ targets) v = logs targets v

  -- What holds of the user of a snowflake in the log.
  abbrev pub OfLogged : (User → Type 0) → Target → Type 0
  OfLogged P (member_target m) = P (w.copy_user (w.user_of m))
  OfLogged P (user_target u) = P u
  OfLogged P valueless = Unit

  case_users-All :
      (P : User → Type 0) (targets : List Target) (users all_users : List User)
      → case_users w targets users ≡ some all_users
      → All (OfLogged P) targets
      → All P users
      → All P all_users
  unfolding case_users case_user
  case_users-All P [] users all_users e ps qs = rw (sym (option_inj e)) qs
  case_users-All P (member_target m ∷ targets) users all_users e (p, ps) qs =
      let u = w.copy_user (w.user_of m) in
      let (more, run, rest) = >>=-eq-some (insert user_key w.past_users u users) _ e in
      case_users-All P targets more all_users rest ps
        (All-insert user_key P w.past_users u users run p qs)
  case_users-All P (user_target u ∷ targets) users all_users e (p, ps) qs =
      let (more, run, rest) = >>=-eq-some (insert user_key w.past_users u users) _ e in
      case_users-All P targets more all_users rest ps
        (All-insert user_key P w.past_users u users run p qs)
  case_users-All P (valueless ∷ targets) users all_users e ps qs = absurd (ground (arith, e))

  logs-split :
      (before after : List Target) (m : Member)
      → logs (before ++ member_target m ∷ after) (w.copy_user (w.user_of m)) ≡ true
  logs-split [] after m = ground (arith, ==_refl (user_key (w.copy_user (w.user_of m))))
  logs-split (member_target n ∷ before) after m = ground (arith, logs-split before after m)
  logs-split (user_target u ∷ before) after m = ground (arith, logs-split before after m)
  logs-split (valueless ∷ before) after m = logs-split before after m

  case_users_lem :
      (targets : List Target) (users : List User)
      → All IsLogged targets
      → All (Quiet user_key w.past_users) users
      → (all_users : List User) × (case_users w targets users ≡ some all_users)
        × All (Quiet user_key w.past_users) all_users
        × ((v : User)
            → contains user_key all_users v ≡ (contains user_key users v || logs targets v))
  unfolding case_users case_user
  case_users_lem [] users q p = (users, refl, p, λ v. ground arith)
  case_users_lem (member_target m ∷ targets) users (q, qs) p =
      let u = w.copy_user (w.user_of m) in
      let (all_users, run, all_quiet, law) =
        case_users_lem targets (sorted_insert user_key u users) qs
          (All-sorted_insert user_key (Quiet user_key w.past_users) u users q p) in
      (
        all_users,
        bind_lem (insert user_key w.past_users u users) _ (sorted_insert user_key u users)
              (insert-Quiet user_key w.past_users u users q)
            ∙ run,
        all_quiet,
        λ v. ground (arith, law v, contains-sorted_insert user_key u v users),
      )
  case_users_lem (user_target u ∷ targets) users (q, qs) p =
      let (all_users, run, all_quiet, law) =
        case_users_lem targets (sorted_insert user_key u users) qs
          (All-sorted_insert user_key (Quiet user_key w.past_users) u users q p) in
      (
        all_users,
        bind_lem (insert user_key w.past_users u users) _ (sorted_insert user_key u users)
              (insert-Quiet user_key w.past_users u users q)
            ∙ run,
        all_quiet,
        λ v. ground (arith, law v, contains-sorted_insert user_key u v users),
      )
  case_users_lem (valueless ∷ targets) users (q, qs) p = absurd q

  -- What an insertion of cases does.
  pub record Recorded (name : Text) (h : Hybrid) : Type 1 where
    pub left : Hybrid
    pub fine : List User
    pub returned : log_modcase w name h ≡ some left
    pub rows : recorded left.base.requests ≡ recorded h.base.requests ++ map (λ u. u.id) fine
    pub members_fine :
        (v : User)
        → contains user_key fine v
          ≡ (logs h.snowflakes v && not (contains user_key h.users_with_errors v))
    pub all_fine : (P : User → Type 0) → All (OfLogged P) h.snowflakes → All P fine

  -- Where the guild has a row in the case log, the command has not been moved and no snowflake is
  -- without a value, the log of a case returns; it adds a row for each user of the log, copies of the
  -- users of the members among them, that is not one of the users with errors. No read behind the last
  -- element faults or matches one of them.
  pub log_modcase-Recorded :
      (name : Text) (h : Hybrid) (row : Option ℕ)
      → w.case_id ≡ some row
      → h.base.moved ≡ false
      → All IsLogged h.snowflakes
      → Recorded name h
  unfolding log_modcase contains next_case
  log_modcase-Recorded name h row c m qs =
      let (all_users, run, q, law) = case_users_lem h.snowflakes [] qs tt in
      let (fine, runs, laws) =
        set_difference_lem user_key w.past_users all_users h.users_with_errors [] q in
      let id : ℕ = elim row [ none ↦ 1 | some n ↦ (n + 1) % 2 ^ 64 ] in
      record {
        left = record h {
          base = record h.base {
            requests =
                h.base.requests ++ insert_cases h.base.duration id name (map (λ u. u.id) fine);
          };
        };
        fine = fine;
        returned =
            if_false_lem h.base.moved _ _ m
            ∙ (bind_lem (next_case w) _ id (bind_lem w.case_id _ row c)
                ∙ (bind_lem (case_users w h.snowflakes []) _ all_users run
                    ∙ bind_lem
                        (set_difference user_key w.past_users all_users h.users_with_errors []) _
                        fine runs));
        rows = recorded-insert_cases h.base.requests h.base.duration id name (map (λ u. u.id) fine);
        members_fine = λ v. ground (arith, law v, laws v);
        all_fine = λ P ps.
            All-set_difference user_key w.past_users P all_users h.users_with_errors [] runs
              (case_users-All P h.snowflakes [] all_users run ps tt) tt;
      }

  find_id :
      (fine : List User) (v : User) (id : ℕ)
      → contains user_key fine v ≡ true
      → All (λ u. user_key u ≡ user_key v → u.id ≡ id) fine
      → (earlier later : List ℕ) × (map (λ u. u.id) fine ≡ earlier ++ id ∷ later)
  unfolding contains
  find_id [] v id h ps = absurd (ground (arith, h))
  find_id (u ∷ fine) v id h (p, ps) = elim (Bool-cases (user_key u == user_key v)) [
    | inl e ↦ (
      [],
      map (λ u. u.id) fine,
      ap (λ x. x ∷ map (λ u. u.id) fine) (p ((==_iff (user_key u) (user_key v)).0 e)),
    )
    | inr e ↦
        let (earlier, later, law) = find_id fine v id (ground (arith, e, h)) ps in
        (u.id ∷ earlier, later, ap (λ x. u.id ∷ x) law)
  ]

  -- A member of the command gets a row in the case log even if its user is among the users with errors:
  -- it is the copy of that user which would have to be among them. The conditions are that the guild
  -- has a row in the case log, that the command has not been moved, that every snowflake has a value
  -- which no read behind the last element matches, and that a user of the log that stands where the
  -- copy does has the id of the member.
  pub failed_member-Recorded :
      (name : Text) (h : Hybrid) (row : Option ℕ) (before : List Target) (m : Member)
      (after : List Target)
      → w.case_id ≡ some row
      → h.base.moved ≡ false
      → h.snowflakes ≡ before ++ member_target m ∷ after
      → All IsLogged h.snowflakes
      → contains user_key h.users_with_errors (w.copy_user (w.user_of m)) ≡ false
      → All
          (OfLogged (λ u. user_key u ≡ user_key (w.copy_user (w.user_of m)) → u.id ≡ m.user_id))
          h.snowflakes
      → (left : Hybrid) × (earlier later : List ℕ) × (log_modcase w name h ≡ some left)
        × (recorded left.base.requests ≡ recorded h.base.requests ++ (earlier ++ m.user_id ∷ later))
  failed_member-Recorded name h row before m after c k e qs fresh named =
      let r = log_modcase-Recorded name h row c k qs in
      let u = w.copy_user (w.user_of m) in
      let logged : logs h.snowflakes u ≡ true = ap (λ x. logs x u) e ∙ logs-split before after m in
      let (earlier, later, law) =
        find_id r.fine u m.user_id (ground (arith, r.members_fine u, logged, fresh)) (
          r.all_fine (λ u. user_key u ≡ user_key (w.copy_user (w.user_of m)) → u.id ≡ m.user_id)
            named) in
      (r.left, earlier, later, r.returned, r.rows ∙ ap (λ x. recorded h.base.requests ++ x) law)
