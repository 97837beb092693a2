-- ===== src/FifoMap.antt =====
-- src/cogs/core/containers/fifo_map.h: keys and values side by side, in the order of insertion.
pub mod Order
pub mod Refinement
use reactaio.Prelude.{
  ℕ, zero, suc, Bool, true, false, List, [], ◌∷◌, ◌++◌, Option, none, some, if◌then◌else◌,
  get_elem?, set,
}
use reactaio.Prelude.Eq.{Eq}
use reactaio.Prelude.Result.{Result, ok, throw, out_of_range}

pub record FifoMap {ℓ κ} (K : Type ℓ) (V : Type κ) : Type (ℓ ⊔ κ) where
  pub keys : List K
  pub values : List V

-- `std::ranges::find` and the distance from the beginning.
unfoldable pub index_of {ℓ} : {A : Type ℓ} ⦃e : Eq A⦄ → A → List A → Option ℕ
index_of a [] = none
index_of ⦃e⦄ a (x ∷ xs) =
    let later = index_of a xs in
    if e.beq x a then some 0 else elim later [ none ↦ none | some i ↦ some (suc i) ]

module _ {ℓ κ} {K : Type ℓ} {V : Type κ} ⦃e : Eq K⦄ where
  -- The default constructor.
  unfoldable pub empty : FifoMap K V
  empty = record { keys = []; values = [] }

  unfoldable pub insert : K → V → FifoMap K V → FifoMap K V
  unfolding index_of
  insert key value m = elim (index_of key m.keys) [
    | some index ↦ record m { values = set m.values index value }
    | none ↦ record { keys = m.keys ++ key ∷ []; values = m.values ++ value ∷ [] }
  ]

  -- The constructor from an initializer list.
  unfoldable pub of_list : List (K × V) → FifoMap K V → FifoMap K V
  unfolding insert
  of_list [] m = m
  of_list ((key, value) ∷ l) m = of_list l (insert key value m)

  -- `at(key)`: it throws where the key is not in the map, and so would `m_values.at(index)`.
  pub at : K → FifoMap K V → Result V
  unfolding index_of
  at key m = elim (index_of key m.keys) [
    | none ↦ throw out_of_range
    | some index ↦ elim (get_elem? m.values index) [ none ↦ throw out_of_range | some v ↦ ok v ]
  ]

  unfoldable pub find_key : ⦃d : Eq V⦄ → V → FifoMap K V → Result K
  unfolding index_of
  find_key value m = elim (index_of value m.values) [
    | none ↦ throw out_of_range
    | some index ↦ elim (get_elem? m.keys index) [ none ↦ throw out_of_range | some k ↦ ok k ]
  ]
