-- ===== src/Moderation/Roles.antt =====
-- `get_roles_sorted` of src/cogs/core/helpers.cpp, and the role lists of
-- src/cogs/moderation/wrappers/command_wrapper.cpp. `none` is undefined behaviour.
pub mod Sorted
pub mod Copies
use mathlib.Core.List.{reverse}
use reactaio.Prelude.{
  ℕ, zero, suc, Bool, true, false, List, [], ◌∷◌, Option, none, some, if◌then◌else◌, length, null,
  Text,
}
use reactaio.UniqueVector.{insert}
use reactaio.UniqueVector.Access.{front}
use reactaio.Algorithm.{transform}
use reactaio.Moderation.World.{Role, Member, World, role_key}

infixl 5 ◌>>=◌
abbrev pub ◌>>=◌ {ℓ κ} : {A : Type ℓ} {B : Type κ} → Option A → (A → Option B) → Option B
none >>= f = none
some a >>= f = f a

module _ (w : World) where
  -- The loop of `get_roles_sorted`, over the ids of the guild or of the member.
  unfoldable pub insert_roles : List ℕ → List ℕ → Option (List ℕ)
  insert_roles [] roles = some roles
  insert_roles (id ∷ ids) roles = do
    roles' ← insert role_key w.past_roles (w.find_role id) roles
    insert_roles ids roles'

  unfoldable pub get_roles_sorted : List ℕ → Bool → Option (List ℕ)
  unfolding insert_roles
  get_roles_sorted role_ids descending = do
    roles ← insert_roles role_ids []
    some (if descending then reverse roles else roles)

  -- `get_roles_sorted(member)` and then `roles.front()`: the address of the top role.
  unfoldable pub top_role : Member → Option ℕ
  unfolding get_roles_sorted
  top_role m = do roles ← get_roles_sorted m.roles true; front roles

  unfoldable pub nulls : ℕ → List ℕ
  nulls zero = []
  nulls (suc n) = 0 ∷ nulls n

  -- `get_protected_roles`: the container is made with as many null pointers as there are ids, and
  -- gets a copy of each role. A query for one row throws where there is none.
  unfoldable pub get_protected_roles : Option (List ℕ)
  unfolding nulls
  get_protected_roles = w.protected_roles >>= λ row. elim row [
    | none ↦ some []
    | some ids ↦ transform role_key w.past_roles ids (nulls (length ids)) w.copy_role
  ]

  unfoldable pub get_permitted_roles : Text → Option (List ℕ)
  unfolding nulls
  get_permitted_roles name = elim (w.permitted_roles name) [
    | [] ↦ some []
    | id ∷ ids ↦ transform role_key w.past_roles (id ∷ ids) (nulls (length (id ∷ ids))) w.copy_role
  ]
