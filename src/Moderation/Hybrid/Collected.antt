-- ===== src/Moderation/Hybrid/Collected.antt =====
-- What the loop over the snowflakes of src/cogs/moderation/wrappers/ban/ban_wrapper.cpp collects.
use reactaio.Prelude.{
  ◌≡◌, refl, sym, ap, ◌∙◌, Bool, false, ◌||◌, List, [], ◌∷◌, some, ◌==◌, All, arith, option_inj,
}
use reactaio.UniqueVector.{insert, contains}
use reactaio.UniqueVector.Insert.{Quiet, sorted_insert, insert-Quiet, contains-sorted_insert}
use reactaio.Moderation.World.{
  User, Target, member_target, user_target, valueless, World, member_key, user_key,
}
use reactaio.Moderation.Checks.Allowed.{>>=-eq-some, bind_lem}
use reactaio.Moderation.Hybrid.{Hybrid, collect}

module _ (w : World) where
  -- What the loop leaves alone.
  pub record Kept (h h1 : Hybrid) : Type 0 where
    pub requests : h1.base.requests ≡ h.base.requests
    pub cancel_operation : h1.base.cancel_operation ≡ h.base.cancel_operation
    pub moved : h1.base.moved ≡ h.base.moved
    pub duration : h1.base.duration ≡ h.base.duration
    pub snowflakes : h1.snowflakes ≡ h.snowflakes
    pub users_with_errors : h1.users_with_errors ≡ h.users_with_errors

  same_fields :
      (h h1 : Hybrid)
      → h1.base.requests ≡ h.base.requests
      → h1.base.cancel_operation ≡ h.base.cancel_operation
      → h1.base.moved ≡ h.base.moved
      → h1.base.duration ≡ h.base.duration
      → h1.snowflakes ≡ h.snowflakes
      → h1.users_with_errors ≡ h.users_with_errors
      → Kept h h1
  same_fields h h1 a b c d e f = record {
    requests = a;
    cancel_operation = b;
    moved = c;
    duration = d;
    snowflakes = e;
    users_with_errors = f;
  }

  Kept-refl : (h : Hybrid) → Kept h h
  Kept-refl h = same_fields h h refl refl refl refl refl refl

  Kept-trans : (h t h1 : Hybrid) → Kept h t → Kept t h1 → Kept h h1
  Kept-trans h t h1 a b = record {
    requests = b.requests ∙ a.requests;
    cancel_operation = b.cancel_operation ∙ a.cancel_operation;
    moved = b.moved ∙ a.moved;
    duration = b.duration ∙ a.duration;
    snowflakes = b.snowflakes ∙ a.snowflakes;
    users_with_errors = b.users_with_errors ∙ a.users_with_errors;
  }

  pub collect-Kept :
      (targets : List Target) (h h1 : Hybrid) (invalid : Bool)
      → collect w targets h ≡ some (invalid, h1)
      → Kept h h1
  unfolding collect
  collect-Kept [] h h1 invalid e =
      let same : h ≡ h1 = ap (λ x. x.1) (option_inj e) in rw (sym same) (Kept-refl h)
  collect-Kept (member_target m ∷ targets) h h1 invalid e =
      let (members, _, e1) = >>=-eq-some (insert member_key w.past_members m h.base.members) _ e in
      let (users, _, e2) = >>=-eq-some (insert user_key w.past_users (w.user_of m) h.users) _ e1 in
      let t : Hybrid = record h { base = record h.base { members = members }; users = users } in
      Kept-trans h t h1 (same_fields h t refl refl refl refl refl refl)
        (collect-Kept targets t h1 invalid e2)
  collect-Kept (user_target u ∷ targets) h h1 invalid e =
      let (users, _, e1) = >>=-eq-some (insert user_key w.past_users u h.users) _ e in
      let t : Hybrid = record h { users = users } in
      Kept-trans h t h1 (same_fields h t refl refl refl refl refl refl)
        (collect-Kept targets t h1 invalid e1)
  collect-Kept (valueless ∷ targets) h h1 invalid e =
      rw (ap (λ x. x.1) (sym (option_inj e))) (same_fields h _ refl refl refl refl refl refl)

  -- Without an invalid user there is no error.
  pub collect-errors :
      (targets : List Target) (h h1 : Hybrid)
      → collect w targets h ≡ some (false, h1)
      → h1.base.errors ≡ h.base.errors
  unfolding collect
  collect-errors [] h h1 e = ap (λ x. x.1.base.errors) (sym (option_inj e))
  collect-errors (member_target m ∷ targets) h h1 e =
      let (members, _, e1) = >>=-eq-some (insert member_key w.past_members m h.base.members) _ e in
      let (users, _, e2) = >>=-eq-some (insert user_key w.past_users (w.user_of m) h.users) _ e1 in
      collect-errors targets _ h1 e2
  collect-errors (user_target u ∷ targets) h h1 e =
      let (users, _, e1) = >>=-eq-some (insert user_key w.past_users u h.users) _ e in
      collect-errors targets _ h1 e1
  collect-errors (valueless ∷ targets) h h1 e =
      absurd (ground (arith, ap (λ x. x.0) (option_inj e)))

  -- A snowflake with a value that no read behind the last element matches.
  abbrev pub IsNamed : Target → Type 0
  IsNamed (member_target m) =
      Quiet member_key w.past_members m × Quiet user_key w.past_users (w.user_of m)
  IsNamed (user_target u) = Quiet user_key w.past_users u
  IsNamed valueless = ⊥

  -- Whether the snowflakes name the user, as such or as a member.
  abbrev pub names : List Target → User → Bool
  names [] v = false
  names (member_target m ∷ targets) v = user_key (w.user_of m) == user_key v || names targets v
  names (user_target u ∷ targets) v = user_key u == user_key v || names targets v
  names (valueless ∷ targets) v = names targets v

  -- The loop over snowflakes that all have a value, if no read behind the last element of a container
  -- faults or meets one of them, ends without an invalid user; the users that it leaves are those
  -- that were there and those that the snowflakes name, be it as members.
  pub collect_lem :
      (targets : List Target) (h : Hybrid)
      → All IsNamed targets
      → (h1 : Hybrid) × (collect w targets h ≡ some (false, h1))
        × ((v : User)
            → contains user_key h1.users v ≡ (contains user_key h.users v || names targets v))
  unfolding collect
  collect_lem [] h q = (h, refl, λ v. ground arith)
  collect_lem (member_target m ∷ targets) h ((qm, qu), qs) =
      let t : Hybrid = record h {
        base = record h.base { members = sorted_insert member_key m h.base.members };
        users = sorted_insert user_key (w.user_of m) h.users;
      } in
      let (h1, run, law) = collect_lem targets t qs in
      (
        h1,
        bind_lem (insert member_key w.past_members m h.base.members) _
              (sorted_insert member_key m h.base.members)
              (insert-Quiet member_key w.past_members m h.base.members qm)
            ∙ (bind_lem (insert user_key w.past_users (w.user_of m) h.users) _
                  (sorted_insert user_key (w.user_of m) h.users)
                  (insert-Quiet user_key w.past_users (w.user_of m) h.users qu)
                ∙ run),
        λ v. ground (arith, law v, contains-sorted_insert user_key (w.user_of m) v h.users),
      )
  collect_lem (user_target u ∷ targets) h (q, qs) =
      let t : Hybrid = record h { users = sorted_insert user_key u h.users } in
      let (h1, run, law) = collect_lem targets t qs in
      (
        h1,
        bind_lem (insert user_key w.past_users u h.users) _ (sorted_insert user_key u h.users)
              (insert-Quiet user_key w.past_users u h.users q)
            ∙ run,
        λ v. ground (arith, law v, contains-sorted_insert user_key u v h.users),
      )
  collect_lem (valueless ∷ targets) h (q, qs) = absurd q
