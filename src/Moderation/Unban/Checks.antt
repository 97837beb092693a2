-- ===== src/Moderation/Unban/Checks.antt =====
-- What the checks of src/cogs/moderation/wrappers/unban/unban_wrapper.cpp let pass.
use reactaio.Moderation.Unban.Safety.{Passes, decide_outcome}
use reactaio.Decimal.{to_string}
use reactaio.Prelude.{
  ◌≡◌, inl, inr, sym, ◌∙◌, true, false, List, [], ◌∷◌, some, arith, Bool-cases, option_inj, Text,
  codes, All, refl, ◌==◌,
}
use reactaio.UniqueVector.{contains, erase, insert}
use reactaio.UniqueVector.Insert.{All-insert}
use reactaio.Algorithm.{set_intersection}
use reactaio.Algorithm.Sets.{contains-key, set_intersection_disjoint}
use reactaio.Moderation.World.{User, World, Command, Row, user_key}
use reactaio.Moderation.Rows.{as_number, query}
use reactaio.Moderation.Checks.Allowed.{>>=-eq-some}
use reactaio.Moderation.Unban.{no_user, copy_users, find_hard_bans, decide, check_permissions}
use reactaio.Moderation.UserWrapper.{Users}

All-erase : (P : User → Type 0) (v : User) (xs : List User) → All P xs → All P (erase user_key v xs)
unfolding erase
All-erase P v [] h = h
All-erase P v (x ∷ xs) (p, ps) = elim (Bool-cases (user_key x == user_key v)) [
  | inl e ↦ rw e (All-erase P v xs ps)
  | inr e ↦ rw e (p, All-erase P v xs ps)
]

-- No element of the list is among the users, by its address.
strangers :
    (users xs : List User)
    → All (λ u. contains user_key users u ≡ false) xs
    → (v : User) → contains user_key users v ≡ true
    → contains user_key xs v ≡ false
unfolding contains
strangers users [] h v m = refl
strangers users (x ∷ xs) (p, ps) v m = elim (Bool-cases (user_key x == user_key v)) [
  | inl e ↦ absurd (ground (arith, contains-key user_key users x v (ground (arith, e))))
  | inr e ↦ rw e (strangers users xs ps v m)
]

module _ (w : World) (c : Command) where
  copy_users-All :
      (P : User → Type 0) (columns : List Text) (rows : List Row) (hard_bans found : List User)
      → ((u : User) → P (w.copy_user u))
      → copy_users w columns rows hard_bans ≡ some found
      → All P hard_bans
      → All P found
  unfolding copy_users
  copy_users-All P columns [] hard_bans found p e h =
      rw (sym (option_inj e)) (All-erase P no_user hard_bans h)
  copy_users-All P columns (row ∷ rows) hard_bans found p e h =
      let (id, _, e1) = >>=-eq-some (as_number _ (codes "user_id")) _ e in
      let (user, _, e2) = >>=-eq-some (w.find_user id) _ e1 in
      let (more, run, e3) =
        >>=-eq-some (insert user_key w.past_users (w.copy_user user) hard_bans) _ e2 in
      copy_users-All P columns rows more found p e3
        (All-insert user_key P w.past_users (w.copy_user user) hard_bans run (p user) h)

  -- Where copies of users are at addresses of their own, checks that return end as if the guild had
  -- no hard bans.
  pub hard_bans_ignored :
      (x x' : Users)
      → ((u : User) → contains user_key x.users (w.copy_user u) ≡ false)
      → check_permissions w c x ≡ some x'
      → decide w c [] x ≡ some x'
  unfolding check_permissions find_hard_bans decide contains
  hard_bans_ignored x x' fresh e =
      let (hard_bans, found, e1) = >>=-eq-some (find_hard_bans w) _ e in
      let ((columns, rows), _, copied) =
        >>=-eq-some (query w (codes "hardban_get") (to_string w.guild_id ∷ [])) _ found in
      let apart = strangers x.users hard_bans (
        copy_users-All (λ u. contains user_key x.users u ≡ false) columns rows [] hard_bans fresh
          copied tt) in
      let none_of : set_intersection user_key w.past_users x.users [] [] ≡ some [] =
        set_intersection_disjoint user_key w.past_users x.users [] [] (λ u m. refl) in
      rw none_of
        (rw (set_intersection_disjoint user_key w.past_users x.users hard_bans [] apart) at e1)

  -- Checks that end without cancelling were passed by a bot that may ban and by an author whose top
  -- role is not below that of the bot.
  pub check_permissions-Passes :
      (x x' : Users)
      → check_permissions w c x ≡ some x'
      → x'.base.cancel_operation ≡ false
      → Passes w c
  unfolding check_permissions
  check_permissions-Passes x x' e n =
      let (hard_bans, _, decided) = >>=-eq-some (find_hard_bans w) _ e in
      elim (decide_outcome w c hard_bans x x' decided).1 [
        | inl q ↦ absurd (ground (arith, sym n ∙ q))
        | inr q ↦ q.2
      ]
