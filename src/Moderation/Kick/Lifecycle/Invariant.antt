-- ===== src/Moderation/Kick/Lifecycle/Invariant.antt =====
-- What holds of a kick command of src/cogs/moderation/wrappers/kick/kick_wrapper.cpp while its kicks
-- end, in whatever order.
use reactaio.Prelude.{
  ◌≤◌, if◌then◌else◌, append-nil, Text, ℕ, ◌+◌, ◌≡◌, refl, sym, ap, ◌∙◌, Bool, true, false, List,
  [], ◌∷◌, ◌++◌, Option, none, some, ◌==◌, length, length-append, map, All, All-append, arith,
  option_inj, if-none, ==_refl,
}
use reactaio.UniqueVector.{insert}
use reactaio.UniqueVector.Insert.{IsSorted, insert-IsSorted, All-insert}
use reactaio.Algorithm.{set_difference}
use reactaio.Algorithm.Sets.{All-set_difference}
use reactaio.Moderation.World.{
  Member, World, Session, Completion, succeeded, failed, member_key, Request,
}
use reactaio.Moderation.Checks.Allowed.{>>=-eq-some}
use reactaio.Moderation.Session.{insert_cases, next_case, log_modcase}
use reactaio.Moderation.Session.Acts.{acts, acts-append, kicked, kick_target, recorded}
use reactaio.Duration.{Duration}
use reactaio.Moderation.Kick.{kick_name, failure_text, lambda_callback}
use reactaio.Moderation.Kick.Cases.{recorded-insert_cases}
use reactaio.Moderation.Kick.Lifecycle.{Calls, ends, Reach, start, later}

-- The ids of the members of a session.
abbrev pub is_id : List Member → ℕ → Bool
is_id [] id = false
is_id (m ∷ members) id = if m.user_id == id then true else is_id members id

pub All-split {ℓ κ} :
    {A : Type ℓ} (P : A → Type κ) (xs : List A) (x : A) (ys : List A)
    → All P (xs ++ x ∷ ys)
    → P x × All P (xs ++ ys)
All-split P [] x ys h = h
All-split P (z ∷ xs) x ys (p, ps) = let (q, qs) = All-split P xs x ys ps in (q, (p, qs))

All-ids :
    (members fine : List Member)
    → All (λ m. is_id members m.user_id ≡ true) fine
    → All (λ id. is_id members id ≡ true) (map (λ m. m.user_id) fine)
All-ids members [] h = tt
All-ids members (m ∷ fine) (p, ps) = (p, All-ids members fine ps)

is_id_self :
    (before members : List Member)
    → ((id : ℕ) → is_id members id ≡ true → is_id before id ≡ true)
    → All (λ m. is_id before m.user_id ≡ true) members
is_id_self before [] f = tt
is_id_self before (m ∷ members) f = (
  f m.user_id (ground (arith, ==_refl m.user_id)),
  is_id_self before members (λ id e. f id (ground (arith, e))),
)

-- What the callbacks keep true of the session `s` in which the kicks were asked for.
pub record Inv (s : Session) (k : Calls) : Type 0 where
  pub members : k.session.members ≡ s.members
  pub kicks : kicked k.session.requests ≡ kicked s.requests
  pub cancel_operation : k.session.cancel_operation ≡ s.cancel_operation
  pub moved : k.session.moved ≡ s.moved
  pub sorted : IsSorted member_key k.session.members_with_errors
  pub ended : length k.pending + length k.session.errors ≤ length s.members + length s.errors
  pub pending_members : All (λ m. is_id s.members m.user_id ≡ true) k.pending
  pub failed_members : All (λ m. is_id s.members m.user_id ≡ true) k.session.members_with_errors
  pub rows : All (λ id. is_id s.members id ≡ true) (recorded k.session.requests)

module _ (w : World) (s : Session) where
  -- The rows of one success.
  kicked-insert_cases :
      (requests : List Request) (duration : Option Duration) (id : ℕ) (name : Text) (users : List ℕ)
      → kicked (requests ++ insert_cases duration id name users) ≡ kicked requests
  unfolding kicked acts insert_cases
  kicked-insert_cases requests duration id name users =
      acts-append kick_target requests (insert_cases duration id name users)
      ∙ (ap (λ x. kicked requests ++ x) (none_more duration users) ∙ append-nil (kicked requests))
    where
      none_more :
          (duration : Option Duration) (users : List ℕ)
          → kicked (insert_cases duration id name users) ≡ []
      none_more none [] = refl
      none_more (some d) [] = refl
      none_more none (user ∷ users) = none_more none users
      none_more (some d) (user ∷ users) = none_more (some d) users

  self_named :
      (members : List Member)
      → members ≡ s.members
      → All (λ m. is_id s.members m.user_id ≡ true) members
  self_named members e = rw e (is_id_self s.members s.members (λ id e. e))

  callback-Inv :
      (k : Calls) (before : List Member) (m : Member) (after : List Member)
      (completion : Completion) (t : Session)
      → k.pending ≡ before ++ m ∷ after
      → lambda_callback w completion m k.session ≡ some t
      → Inv s k
      → Inv s (record { session = t; pending = before ++ after })
  unfolding lambda_callback log_modcase
  callback-Inv k before m after succeeded t p e inv =
      let (_, e0) = if-none k.session.moved e in
      let (id, _, e1) = >>=-eq-some (next_case w) _ e0 in
      let (fine, run, e2) =
        >>=-eq-some
          (set_difference member_key w.past_members k.session.members k.session.members_with_errors
            [])
          _ e1 in
      let (_, others) =
        All-split (λ m. is_id s.members m.user_id ≡ true) before m after
          (rw p at inv.pending_members) in
      let all_fine =
        All-set_difference member_key w.past_members (λ m. is_id s.members m.user_id ≡ true)
          k.session.members k.session.members_with_errors [] run
          (self_named k.session.members inv.members) tt in
      rw (sym (option_inj e2)) (record {
        members = inv.members;
        kicks =
            kicked-insert_cases k.session.requests k.session.duration id kick_name
              (map (λ m. m.user_id) fine)
            ∙ inv.kicks;
        cancel_operation = inv.cancel_operation;
        moved = inv.moved;
        sorted = inv.sorted;
        ended = omega (
          arith,
          inv.ended,
          ap length p,
          length-append before (m ∷ after),
          length-append before after,
        );
        pending_members = others;
        failed_members = inv.failed_members;
        rows =
            rw
              (recorded-insert_cases k.session.requests k.session.duration id kick_name
                (map (λ m. m.user_id) fine))
              (All-append (λ id. is_id s.members id ≡ true) (recorded k.session.requests)
                (map (λ m. m.user_id) fine) inv.rows (All-ids s.members fine all_fine));
      })
  callback-Inv k before m after (failed code reason) t p e inv =
      let (with_errors, run, e1) =
        >>=-eq-some (insert member_key w.past_members m k.session.members_with_errors) _ e in
      let (named, others) =
        All-split (λ m. is_id s.members m.user_id ≡ true) before m after
          (rw p at inv.pending_members) in
      rw (sym (option_inj e1)) (record {
        members = inv.members;
        kicks = inv.kicks;
        cancel_operation = inv.cancel_operation;
        moved = inv.moved;
        sorted =
            insert-IsSorted member_key w.past_members m k.session.members_with_errors run
              inv.sorted;
        ended = omega (
          arith,
          inv.ended,
          ap length p,
          length-append before (m ∷ after),
          length-append before after,
          length-append k.session.errors (failure_text m code reason ∷ []),
        );
        pending_members = others;
        failed_members =
            All-insert member_key (λ m. is_id s.members m.user_id ≡ true) w.past_members m
              k.session.members_with_errors run named inv.failed_members;
        rows = inv.rows;
      })

  -- Whatever kicks have ended, in whatever order, well or not: nobody has been kicked again, the
  -- members are the same and nothing has been cancelled, the members with errors are sorted and are
  -- members of the command, each kick that has ended has left one error at most, and only members of
  -- the command have rows in the case log. This is so from a session without errors and rows on.
  pub Reach-Inv :
      (k : Calls) → s.members_with_errors ≡ [] → recorded s.requests ≡ [] → Reach w s k → Inv s k
  Reach-Inv k e r start = record {
    members = refl;
    kicks = refl;
    cancel_operation = refl;
    moved = refl;
    sorted = rw e tt;
    ended = omega arith;
    pending_members = is_id_self s.members s.members (λ id e. e);
    failed_members = rw e tt;
    rows = rw r tt;
  }
  Reach-Inv k e r (later {k = j} before (ends xs m ys completion p run)) =
      callback-Inv j xs m ys completion _ p run (Reach-Inv j e r before)
