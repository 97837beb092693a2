-- ===== src/UniqueVector.antt =====
-- src/cogs/core/containers/unique_vector.h: a vector kept sorted, with no value twice.
pub mod Insert
pub mod Access
pub mod Refinement
use reactaio.Prelude.{
  ℕ, zero, suc, ◌+◌, ◌-◌, Bool, true, false, not, ◌&&◌, List, [], ◌∷◌, ◌++◌, Option, none, some,
  ltb, ◌==◌, if◌then◌else◌, length, get_elem?,
}

-- Elements are compared by a key: the address of a shared pointer.
module _ {ℓ} {A : Type ℓ} (key : A → ℕ) where
  -- `std::ranges::lower_bound` on a sorted range: the place of the first element not below `v`.
  unfoldable pub lower_bound : A → List A → ℕ
  lower_bound v [] = 0
  lower_bound v (x ∷ xs) = if ltb (key x) (key v) then suc (lower_bound v xs) else 0

  -- `std::vector::emplace` before place `i`.
  unfoldable pub emplace : ℕ → A → List A → List A
  emplace zero v xs = v ∷ xs
  emplace (suc i) v [] = v ∷ []
  emplace (suc i) v (x ∷ xs) = x ∷ emplace i v xs

  -- `std::ranges::find(value) != end()`
  unfoldable pub contains : List A → A → Bool
  contains [] v = false
  contains (x ∷ xs) v = if key x == key v then true else contains xs v

  -- `erase(value)`: `std::erase` drops every equal element.
  unfoldable pub erase : A → List A → List A
  erase v [] = []
  erase v (x ∷ xs) = let rest = erase v xs in if key x == key v then rest else x ∷ rest

  -- What `*iter` reads at place `i`: an element, or `beyond` at the end, where no element is.
  unfoldable pub deref : Option A → List A → ℕ → Option A
  deref beyond [] i = beyond
  deref beyond (x ∷ xs) zero = some x
  deref beyond (x ∷ xs) (suc i) = deref beyond xs i

  -- `insert(value)`: the element at the lower bound is read before the position is tested.
  -- `past_end xs` is what the read behind the last element gives, `none` if it faults.
  unfoldable pub insert : (List A → Option A) → A → List A → Option (List A)
  unfolding lower_bound deref emplace
  insert past_end v xs = elim (deref (past_end xs) xs (lower_bound v xs)) [
    | none ↦ none
    | some w ↦ some (if key w == key v then xs else emplace (lower_bound v xs) v xs)
  ]

  -- `insert_range(range)`
  unfoldable pub insert_range : (List A → Option A) → List A → List A → Option (List A)
  insert_range past_end [] xs = some xs
  insert_range past_end (v ∷ vs) xs = elim (insert past_end v xs) [
    | none ↦ none
    | some ys ↦ insert_range past_end vs ys
  ]

  -- `clear()`
  unfoldable pub clear : List A → List A
  clear xs = []

  -- `operator =(range)`: the elements in place of those that were there.
  unfoldable pub assign : (List A → Option A) → List A → List A → Option (List A)
  unfolding clear
  assign past_end vs xs = insert_range past_end vs (clear xs)
