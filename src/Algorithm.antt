-- ===== src/Algorithm.antt =====
-- src/cogs/core/algorithm.h: the set operations over unique vectors.
pub mod Sets
use reactaio.Prelude.{ℕ, Bool, true, false, List, [], ◌∷◌, Option, none, some, if◌then◌else◌}
use reactaio.UniqueVector.{contains, insert}

-- `past_end` is what a read behind the last element of a container gives.
module _ {ℓ} {A : Type ℓ} (key : A → ℕ) (past_end : List A → Option A) where
  -- Each loop inserts the elements that pass its test into the output, in order.
  unfoldable pub copy_if : List A → List A → (A → Bool) → Option (List A)
  copy_if [] output pred = some output
  copy_if (x ∷ input) output pred = elim (pred x) [
    | true ↦ elim (insert key past_end x output) [
      | none ↦ none
      | some output' ↦ copy_if input output' pred
    ]
    | false ↦ copy_if input output pred
  ]

  unfoldable pub set_difference : List A → List A → List A → Option (List A)
  set_difference [] range2 output = some output
  set_difference (x ∷ range1) range2 output = elim (contains key range2 x) [
    | true ↦ set_difference range1 range2 output
    | false ↦ elim (insert key past_end x output) [
      | none ↦ none
      | some output' ↦ set_difference range1 range2 output'
    ]
  ]

  unfoldable pub set_intersection : List A → List A → List A → Option (List A)
  set_intersection [] range2 output = some output
  set_intersection (x ∷ range1) range2 output = elim (contains key range2 x) [
    | true ↦ elim (insert key past_end x output) [
      | none ↦ none
      | some output' ↦ set_intersection range1 range2 output'
    ]
    | false ↦ set_intersection range1 range2 output
  ]

  -- The source asks for the intersection by a call with two arguments, which no overload has: it
  -- is the intersection put into a new container.
  unfoldable pub set_symmetric_difference : List A → List A → List A → Option (List A)
  unfolding set_intersection set_difference
  set_symmetric_difference range1 range2 output = elim (set_intersection range1 range2 []) [
    | none ↦ none
    | some intersection ↦ elim (set_difference range1 intersection output) [
      | none ↦ none
      | some output' ↦ set_difference range2 intersection output'
    ]
  ]

  unfoldable pub transform {κ} : {B : Type κ} → List B → List A → (B → A) → Option (List A)
  transform [] output proj = some output
  transform (b ∷ input) output proj = elim (insert key past_end (proj b) output) [
    | none ↦ none
    | some output' ↦ transform input output' proj
  ]
