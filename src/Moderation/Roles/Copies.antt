-- ===== src/Moderation/Roles/Copies.antt =====
-- The protected and the permitted roles of
-- src/cogs/moderation/wrappers/command_wrapper.cpp are copies.
use reactaio.Prelude.{
  ◌∙◌, sym, ℕ, zero, suc, ◌≡◌, ◌≢◌, refl, true, false, ◌||◌, List, [], ◌∷◌, some, ◌==◌, arith, inl,
  inr, All, map, Text, length, Bool-cases,
}
use reactaio.UniqueVector.{contains}
use reactaio.UniqueVector.Insert.{Quiet}
use reactaio.Algorithm.{set_intersection}
use reactaio.Algorithm.Sets.{set_intersection_disjoint, transform_lem}
use reactaio.Moderation.World.{World, role_key}
use reactaio.Moderation.Roles.{get_roles_sorted, get_protected_roles, get_permitted_roles, nulls}
use reactaio.Moderation.Roles.Sorted.{has_role, get_roles_sorted-contains}

module _ (w : World) where
  -- The allocator: a copy stands where no cached role does.
  abbrev pub Fresh : Type 0
  Fresh = (i j : ℕ) → w.copy_role i ≢ w.find_role j

  -- Every role of the list is in the cache.
  abbrev pub Cached : List ℕ → Type 0
  Cached = All (λ id. w.find_role id ≢ 0)

  nulls-contains : (n a : ℕ) → a ≢ 0 → contains role_key (nulls w n) a ≡ false
  unfolding nulls contains
  nulls-contains zero a h = refl
  nulls-contains (suc n) a h = ground (arith, nulls-contains n a h)

  copies-contains :
      (ids : List ℕ) (a : ℕ)
      → ((i : ℕ) → w.copy_role i ≢ a)
      → contains role_key (map w.copy_role ids) a ≡ false
  unfolding contains
  copies-contains [] a h = refl
  copies-contains (i ∷ ids) a h = ground (arith, h i, copies-contains ids a h)

  -- An address of a member's cached role is neither null nor a copy's.
  Cached-address :
      Fresh
      → (ids : List ℕ) → Cached ids
      → (a : ℕ) → has_role w a ids ≡ true
      → (a ≢ 0) × ((i : ℕ) → w.copy_role i ≢ a)
  unfolding has_role
  Cached-address f [] c a h = absurd (cc)
  Cached-address f (id ∷ ids) (n, c) a h = elim (Bool-cases (w.find_role id == a)) [
    | inl e ↦ (ground arith, λ i q. f i id (q ∙ ground arith))
    | inr e ↦ Cached-address f ids c a (ground arith)
  ]

  copies_disjoint :
      Fresh
      → (copied ids out : List ℕ) (n : ℕ) → Cached ids
      → ((a : ℕ)
          → contains role_key out a
            ≡ (contains role_key (nulls w n) a || contains role_key (map w.copy_role copied) a))
      → (a : ℕ) → has_role w a ids ≡ true
      → contains role_key out a ≡ false
  copies_disjoint f copied ids out n c law a h =
      let (not_null, not_copy) = Cached-address f ids c a h in
      rw (law a, nulls-contains n a not_null, copies-contains copied a not_copy)

  -- The protected roles protect nobody: for a member whose roles are all cached both lists are
  -- returned and their intersection is empty, as it compares the addresses of copies with those of
  -- the cached roles. The conditions are that a copy stands where no cached role does, and that reads
  -- behind the last element match none of the pointers.
  pub protected_roles_ignored :
      (ids m_roles : List ℕ)
      → w.protected_roles ≡ some (some ids)
      → Fresh
      → Cached m_roles
      → All (λ a. Quiet role_key w.past_roles a) (map w.copy_role ids)
      → All (λ id. Quiet role_key w.past_roles (w.find_role id)) m_roles
      → (protected member_roles : List ℕ) × (get_protected_roles w ≡ some protected)
        × (get_roles_sorted w m_roles true ≡ some member_roles)
        × (set_intersection role_key w.past_roles protected member_roles [] ≡ some [])
  unfolding get_protected_roles
  protected_roles_ignored ids m_roles e f c q r =
      let (out, run, law) =
        transform_lem role_key w.past_roles ids (nulls w (length ids)) w.copy_role q in
      let (sorted, runs, has) = get_roles_sorted-contains w m_roles true r in
      (
        out,
        sorted,
        rw e run,
        runs,
        set_intersection_disjoint role_key w.past_roles out sorted [] λ a h.
            elim (Bool-cases (contains role_key sorted a)) [
              | inr no_such ↦ no_such
              | inl there ↦ absurd (
                  ground (
                    arith,
                    h,
                    copies_disjoint f ids m_roles out (length ids) c law a (sym (has a) ∙ there),
                  ))
            ],
      )

  -- No permitted role is among the roles of a member: `get_permitted_roles` returns, and what it
  -- returns does not contain the address of a role that the member has. The conditions are that the
  -- member's roles are cached, that a copy stands where no cached role does, and that reads behind
  -- the last element match no copy.
  pub permitted_roles_ignored :
      (name : Text) (m_roles : List ℕ) (a : ℕ)
      → Fresh
      → Cached m_roles
      → All (λ b. Quiet role_key w.past_roles b) (map w.copy_role (w.permitted_roles name))
      → has_role w a m_roles ≡ true
      → (permitted : List ℕ) × (get_permitted_roles w name ≡ some permitted)
        × (contains role_key permitted a ≡ false)
  unfolding get_permitted_roles
  permitted_roles_ignored name m_roles a f c q h = go (w.permitted_roles name) refl
    where
      go :
          (ids : List ℕ)
          → w.permitted_roles name ≡ ids
          → (permitted : List ℕ) × (get_permitted_roles w name ≡ some permitted)
            × (contains role_key permitted a ≡ false)
      go [] e = ([], rw (e, get_permitted_roles), unfold contains in refl)
      go (id ∷ ids) e =
          let (out, run, law) =
            transform_lem role_key w.past_roles (id ∷ ids) (nulls w (length (id ∷ ids))) w.copy_role
              (rw e at q) in
          (
            out,
            rw (e, get_permitted_roles) run,
            copies_disjoint f (id ∷ ids) m_roles out (length (id ∷ ids)) c law a h,
          )
