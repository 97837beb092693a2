-- ===== src/Moderation/Roles/Sorted.antt =====
-- The order of `get_roles_sorted` of src/cogs/core/helpers.cpp.
use mathlib.Core.List.{reverse}
use reactaio.UniqueVector.Access.{back}
use reactaio.Moderation.Roles.{◌>>=◌}
use reactaio.Prelude.{
  ◌∙◌, sym, ap, ℕ, ◌≤◌, ◌≡◌, refl, Bool, true, false, ◌||◌, List, [], ◌∷◌, some, ◌==◌, arith,
  Option-cases, inl, inr, All,
}
use reactaio.UniqueVector.{insert, contains}
use reactaio.UniqueVector.Access.{front, contains-reverse, back-IsSorted, front-reverse}
use reactaio.UniqueVector.Insert.{
  IsSorted, Quiet, sorted_insert, insert-Quiet, insert-IsSorted, contains-sorted_insert,
}
use reactaio.Moderation.World.{Member, World, role_key}
use reactaio.Moderation.Roles.{insert_roles, get_roles_sorted, top_role}

module _ (w : World) where
  insert_roles-IsSorted :
      (ids roles : List ℕ) {out : List ℕ}
      → insert_roles w ids roles ≡ some out
      → IsSorted role_key roles
      → IsSorted role_key out
  unfolding insert_roles
  insert_roles-IsSorted [] roles h s = ground arith
  insert_roles-IsSorted (id ∷ ids) roles h s =
      elim (Option-cases (insert role_key w.past_roles (w.find_role id) roles)) [
        | inl e ↦ ground arith
        | inr (next, e) ↦
            insert_roles-IsSorted ids next (ground arith)
              (insert-IsSorted role_key w.past_roles (w.find_role id) roles e s)
      ]

  -- The ids whose cached role stands at address `a`.
  unfoldable pub has_role : ℕ → List ℕ → Bool
  has_role a [] = false
  has_role a (id ∷ ids) = w.find_role id == a || has_role a ids

  insert_roles-contains :
      (ids roles : List ℕ)
      → All (λ id. Quiet role_key w.past_roles (w.find_role id)) ids
      → (out : List ℕ) × (insert_roles w ids roles ≡ some out)
        × ((a : ℕ) → contains role_key out a ≡ (contains role_key roles a || has_role a ids))
  unfolding insert_roles has_role
  insert_roles-contains [] roles q = (roles, refl, λ a. ground arith)
  insert_roles-contains (id ∷ ids) roles (q, qs) =
      let (out, run, law) =
        insert_roles-contains ids (sorted_insert role_key (w.find_role id) roles) qs in
      (
        out,
        ground (arith, insert-Quiet role_key w.past_roles (w.find_role id) roles q, run),
        λ a. ground (arith, law a, contains-sorted_insert role_key (w.find_role id) a roles),
      )

  -- `get_roles_sorted` returns the cached roles of the ids, each once.
  pub get_roles_sorted-contains :
      (ids : List ℕ) (descending : Bool)
      → All (λ id. Quiet role_key w.past_roles (w.find_role id)) ids
      → (out : List ℕ) × (get_roles_sorted w ids descending ≡ some out)
        × ((a : ℕ) → contains role_key out a ≡ has_role a ids)
  unfolding get_roles_sorted contains
  get_roles_sorted-contains ids false q =
      let (out, run, law) = insert_roles-contains ids [] q in
      (out, ground (arith, run), λ a. ground (arith, law a))
  get_roles_sorted-contains ids true q =
      let (out, run, law) = insert_roles-contains ids [] q in
      (
        reverse out,
        ground (arith, run),
        λ a. ground (arith, law a, contains-reverse role_key out a),
      )

  get_roles_sorted-some :
      (ids out : List ℕ)
      → insert_roles w ids [] ≡ some out
      → get_roles_sorted w ids true ≡ some (reverse out)
  unfolding get_roles_sorted
  get_roles_sorted-some ids out e = ground (arith, e)

  -- The "top role" of a member is a role of the member, and no role of the member has a greater
  -- address: positions play no part. Reads behind the last element must match no role.
  pub top_role-greatest :
      (m : Member) {a : ℕ} (b : ℕ)
      → top_role w m ≡ some a
      → All (λ id. Quiet role_key w.past_roles (w.find_role id)) m.roles
      → has_role b m.roles ≡ true
      → (has_role a m.roles ≡ true) × (b ≤ a)
  unfolding top_role contains
  top_role-greatest m {a} b h q c =
      let (out, run, law) = insert_roles-contains m.roles [] q in
      let sorted = insert_roles-IsSorted m.roles [] run tt in
      let at_back : back out ≡ some a =
        sym (front-reverse out)
        ∙ (ap (λ r. r >>= front) (sym (get_roles_sorted-some m.roles out run)) ∙ h) in
      (
        sym (law a) ∙ (back-IsSorted role_key out a a sorted at_back).0,
        (back-IsSorted role_key out a b sorted at_back).1 (law b ∙ c),
      )
