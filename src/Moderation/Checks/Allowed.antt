-- ===== src/Moderation/Checks/Allowed.antt =====
-- When the checks on the members let a moderation command go on.
use reactaio.Moderation.Checks.{judge}
use reactaio.Prelude.{
  ◌⊎◌, ◌∙◌, ap, ℕ, ◌≤◌, ◌≡◌, ◌≢◌, ◌↔◌, refl, Bool, true, false, ◌&&◌, List, [], ◌∷◌, Option, none,
  some, null, arith, Bool-cases, inl, inr, All,
}
use reactaio.Algorithm.{set_intersection}
use reactaio.UniqueVector.Access.{front}
use reactaio.Moderation.World.{Role, Member, World, role_key}
use reactaio.Moderation.Roles.{get_roles_sorted, ◌>>=◌}
use reactaio.Moderation.Checks.{
  Texts, Verdict, check_self, check_owner, check_bot, check_bot_account, check_protected,
  check_positions, check_member, check_members,
}

-- Inversion of a bind that returns.
pub >>=-eq-some {ℓ κ} :
    {A : Type ℓ} {B : Type κ} (m : Option A) (f : A → Option B) {b : B}
    → (m >>= f) ≡ some b
    → (a : A) × (m ≡ some a) × (f a ≡ some b)
>>=-eq-some none f h = cc
>>=-eq-some (some a) f h = (a, refl, h)

-- A bind of what returns.
pub bind_lem {ℓ κ} :
    {A : Type ℓ} {B : Type κ} (m : Option A) (f : A → Option B) (a : A)
    → m ≡ some a
    → (m >>= f) ≡ f a
bind_lem m f a e = rw e refl

module _ (w : World) (t : Texts) (author : Member) (no_bots : Bool) (protected : List ℕ)
    (bot_top author_top : Role) where
  -- What the policy asks of a member: not the author, nor the owner of the guild, nor this bot (nor
  -- any bot, for the warn command); no protected role; a top role no higher than the bot's and the
  -- author's.
  pub record IsAllowed (m : Member) : Type 0 where
    pub other : author.user_id ≢ m.user_id
    pub not_owner : m.is_guild_owner ≡ false
    pub not_bot : w.bot_id ≢ m.user_id
    pub no_bot : (no_bots && m.is_bot) ≡ false
    pub roles : List ℕ
    pub sorted : get_roles_sorted w m.roles true ≡ some roles
    pub unprotected :
        (protected ≡ []) ⊎ (set_intersection role_key w.past_roles protected roles [] ≡ some [])
    pub top : ℕ
    pub is_top : front roles ≡ some top
    pub top_role : Role
    pub at_top : w.role_at top ≡ some top_role
    pub below_bot : top_role.position ≤ bot_top.position
    pub below_author : top_role.position ≤ author_top.position

  early : Member → Verdict → Verdict
  early m v = check_bot w t author m (
      check_bot_account w t author no_bots m (check_owner w t author m (check_self w t author m v)))

  -- The first four tests, on a verdict that has not been cancelled so far.
  early_cancel :
      (m : Member) (v : Verdict)
      → v.is_owner ≡ false
      → (early m v).cancel_operation ≡ false
      → (v.cancel_operation ≡ false)
        × (early m v ≡ v)
        × (author.user_id ≢ m.user_id)
        × (m.is_guild_owner ≡ false)
        × (w.bot_id ≢ m.user_id)
        × ((no_bots && m.is_bot) ≡ false)
  unfolding early check_self check_owner check_bot check_bot_account
  early_cancel m v o h = ground arith

  early_mono :
      (m : Member) (v : Verdict) → v.cancel_operation ≡ true → (early m v).cancel_operation ≡ true
  unfolding early check_self check_owner check_bot check_bot_account
  early_mono m v h = ground arith

  judge_cases :
      (common : List ℕ) (v u : Verdict)
      → judge w t author common v ≡ some u
      → ((u ≡ v) × (common ≡ [])) ⊎ (u.cancel_operation ≡ true)
  unfolding judge
  judge_cases [] v u h = inl (ground arith, refl)
  judge_cases (a ∷ others) v u h = inr (ground arith)

  pub Unprotected : List ℕ → Type 0
  Unprotected roles =
      (protected ≡ []) ⊎ (set_intersection role_key w.past_roles protected roles [] ≡ some [])

  -- The test of the protected roles either passes and changes nothing, or it cancels.
  pub check_protected_cases :
      (roles : List ℕ) (v u : Verdict)
      → check_protected w t author protected roles v ≡ some u
      → ((u ≡ v) × Unprotected roles) ⊎ (u.cancel_operation ≡ true)
  unfolding check_protected Unprotected
  check_protected_cases roles v u h = elim (Bool-cases (null protected)) [
    | inl e ↦ inl (ground arith, inl (ground arith))
    | inr e ↦
        let (common, run, verdict) =
          >>=-eq-some (set_intersection role_key w.past_roles protected roles [])
            (λ c. judge w t author c v) (rw (e, check_protected) at h) in
        elim (judge_cases common v u verdict) [
          | inl (same, none_common) ↦ inl (same, inr (run ∙ ap some none_common))
          | inr cancelled ↦ inr cancelled
        ]
  ]

  check_protected_mono :
      (roles : List ℕ) (v u : Verdict)
      → check_protected w t author protected roles v ≡ some u
      → v.cancel_operation ≡ true
      → u.cancel_operation ≡ true
  check_protected_mono roles v u h c = elim (check_protected_cases roles v u h) [
    | inl (same, _) ↦ ground arith
    | inr cancelled ↦ cancelled
  ]

  check_positions_cancel :
      (m : Member) (r : Role) (v : Verdict)
      → (check_positions w t author m r bot_top author_top v).cancel_operation ≡ false
      → (check_positions w t author m r bot_top author_top v ≡ v)
        × (r.position ≤ bot_top.position)
        × (r.position ≤ author_top.position)
  unfolding check_positions
  check_positions_cancel m r v h = ground arith

  check_positions_mono :
      (m : Member) (r : Role) (v : Verdict)
      → v.cancel_operation ≡ true
      → (check_positions w t author m r bot_top author_top v).cancel_operation ≡ true
  unfolding check_positions
  check_positions_mono m r v h = ground arith

  abbrev check : Member → Verdict → Option Verdict
  check m v = check_member w t author no_bots protected bot_top author_top m v

  -- What a round that returns has computed.
  record Round (m : Member) (v u : Verdict) : Type 0 where
    roles : List ℕ
    sorted : get_roles_sorted w m.roles true ≡ some roles
    top : ℕ
    is_top : front roles ≡ some top
    middle : Verdict
    judged : check_protected w t author protected roles (early m v) ≡ some middle
    top_role : Role
    at_top : w.role_at top ≡ some top_role
    final : u ≡ check_positions w t author m top_role bot_top author_top middle

  check_member-Round : (m : Member) (v u : Verdict) → check m v ≡ some u → Round m v u
  unfolding check_member early
  check_member-Round m v u h =
      let (roles, e1, h1) = >>=-eq-some (get_roles_sorted w m.roles true) _ h in
      let (top, e2, h2) = >>=-eq-some (front roles) _ h1 in
      let (middle, e3, h3) =
        >>=-eq-some (check_protected w t author protected roles (early m v)) _ h2 in
      let (r, e4, h4) = >>=-eq-some (w.role_at top) _ h3 in
      record {
        roles = roles;
        sorted = e1;
        top = top;
        is_top = e2;
        middle = middle;
        judged = e3;
        top_role = r;
        at_top = e4;
        final = ground arith;
      }

  check_member_mono :
      (m : Member) (v u : Verdict)
      → check m v ≡ some u
      → v.cancel_operation ≡ true
      → u.cancel_operation ≡ true
  check_member_mono m v u h c =
      let r = check_member-Round m v u h in
      rw r.final (
        check_positions_mono m r.top_role r.middle
          (check_protected_mono r.roles (early m v) r.middle r.judged (early_mono m v c)))

  check_member_sound :
      (m : Member) (v u : Verdict)
      → v.is_owner ≡ false
      → check m v ≡ some u
      → u.cancel_operation ≡ false
      → (u ≡ v) × IsAllowed m
  unfolding Unprotected
  check_member_sound m v u o h c =
      let r = check_member-Round m v u h in
      let (last, bot_ok, author_ok) =
        check_positions_cancel m r.top_role r.middle (rw r.final at c) in
      elim (check_protected_cases r.roles (early m v) r.middle r.judged) [
        | inr cancelled ↦ absurd (ground arith)
        | inl (same, unprotected) ↦
            let e = early_cancel m v o (ground arith) in
            (
              r.final ∙ (last ∙ (same ∙ e.1)),
              record {
                other = e.2;
                not_owner = e.3;
                not_bot = e.4;
                no_bot = e.5;
                roles = r.roles;
                sorted = r.sorted;
                unprotected = unprotected;
                top = r.top;
                is_top = r.is_top;
                top_role = r.top_role;
                at_top = r.at_top;
                below_bot = bot_ok;
                below_author = author_ok;
              },
            )
      ]

  early_allowed : (m : Member) (v : Verdict) → IsAllowed m → early m v ≡ v
  unfolding early check_self check_owner check_bot check_bot_account
  early_allowed m v a = ground (arith, a.other, a.not_owner, a.not_bot, a.no_bot)

  protected_allowed :
      (m : Member) (v : Verdict) (a : IsAllowed m)
      → check_protected w t author protected a.roles v ≡ some v
  unfolding check_protected judge
  protected_allowed m v a = elim a.unprotected [ inl e ↦ rw e | inr e ↦ ground (arith, e) ]

  positions_allowed :
      (m : Member) (v : Verdict) (a : IsAllowed m)
      → check_positions w t author m a.top_role bot_top author_top v ≡ v
  unfolding check_positions
  positions_allowed m v a = ground (arith, a.below_bot, a.below_author)

  check_member_complete : (m : Member) (v : Verdict) → IsAllowed m → check m v ≡ some v
  unfolding check_member early
  check_member_complete m v a = rw (
    a.sorted,
    check_member,
    a.is_top,
    early_allowed m v a,
    protected_allowed m v a,
    a.at_top,
    positions_allowed m v a,
  )

  abbrev check_all : List Member → Verdict → Option Verdict
  check_all ms v = check_members w t author no_bots protected bot_top author_top ms v

  pub check_members_mono :
      (ms : List Member) (v u : Verdict)
      → check_all ms v ≡ some u
      → v.cancel_operation ≡ true
      → u.cancel_operation ≡ true
  unfolding check_members
  check_members_mono [] v u h c = ground arith
  check_members_mono (m ∷ ms) v u h c =
      let (next, e, rest) = >>=-eq-some (check m v) _ h in
      check_members_mono ms next u rest (check_member_mono m v next e c)

  pub check_members_sound :
      (ms : List Member) (v u : Verdict)
      → v.is_owner ≡ false
      → check_all ms v ≡ some u
      → u.cancel_operation ≡ false
      → (u ≡ v) × All IsAllowed ms
  unfolding check_members
  check_members_sound [] v u o h c = (ground arith, tt)
  check_members_sound (m ∷ ms) v u o h c =
      let (next, e, rest) = >>=-eq-some (check m v) _ h in
      let (same, ok) = check_member_sound m v next o e (uncancelled next rest) in
      let (same', oks) = check_members_sound ms next u (rw same o) rest c in
      (same' ∙ same, (ok, oks))
    where
      uncancelled : (next : Verdict) → check_all ms next ≡ some u → next.cancel_operation ≡ false
      uncancelled next rest = elim (Bool-cases next.cancel_operation) [
        | inl e ↦ absurd (ground (arith, check_members_mono ms next u rest e))
        | inr e ↦ e
      ]

  pub check_members_complete :
      (ms : List Member) (v : Verdict) → All IsAllowed ms → check_all ms v ≡ some v
  unfolding check_members
  check_members_complete [] v h = refl
  check_members_complete (m ∷ ms) v (a, as_) =
      rw (check_member_complete m v a, check_members) (check_members_complete ms v as_)

  -- From a verdict that is not cancelled, the loop over the members returns without a cancellation
  -- exactly when every member is allowed.
  pub check_members_lem :
      (ms : List Member) (v : Verdict)
      → v.is_owner ≡ false
      → v.cancel_operation ≡ false
      → ((u : Verdict) × (check_all ms v ≡ some u) × (u.cancel_operation ≡ false))
        ↔ All IsAllowed ms
  check_members_lem ms v o c =
      (λ h. (check_members_sound ms v h.0 o h.1 h.2).1, λ h. (v, check_members_complete ms v h, c))
