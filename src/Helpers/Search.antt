-- ===== src/Helpers/Search.antt =====
-- `find_all_of` and `find_index_all` of src/cogs/core/helpers.cpp. `std::string_view::find` is that
-- of the standard library. The loops run on fuel; `none` is a loop that has not ended.
pub mod Ends
use reactaio.Prelude.{
  ℕ, zero, suc, ◌+◌, Bool, true, false, ◌&&◌, List, [], ◌∷◌, Option, none, some, if◌then◌else◌,
  ◌==◌, leb, length, Text,
}

unfoldable pub is_prefix : Text → Text → Bool
is_prefix [] s = true
is_prefix (c ∷ find) [] = false
is_prefix (c ∷ find) (d ∷ s) = c == d && is_prefix find s

unfoldable pub drop : Text → ℕ → Text
drop s zero = s
drop [] (suc n) = []
drop (c ∷ s) (suc n) = drop s n

unfoldable pub take : Text → ℕ → Text
take s zero = []
take [] (suc n) = []
take (c ∷ s) (suc n) = c ∷ take s n

-- `find(find, 0)`; none is `npos`.
unfoldable pub first_index : Text → Text → Option ℕ
unfolding is_prefix
first_index find [] = if is_prefix find [] then some 0 else none
first_index find (c ∷ s) =
    let later = first_index find s in
    if is_prefix find (c ∷ s) then some 0 else elim later [ none ↦ none | some i ↦ some (suc i) ]

-- `find(find, position)`
unfoldable pub find_from : Text → Text → ℕ → Option ℕ
unfolding first_index drop
find_from string find position =
    if leb position (length string)
    then elim (first_index find (drop string position)) [
      | none ↦ none
      | some i ↦ some (position + i)
    ]
    else none

-- The set as the list of its elements in the order of insertion.
unfoldable pub index_loop : ℕ → Text → Text → ℕ → Option (List ℕ)
unfolding find_from
index_loop zero string find position = none
index_loop (suc fuel) string find position = elim (find_from string find position) [
  | none ↦ some []
  | some p ↦ elim (index_loop fuel string find (p + length find)) [
    | none ↦ none
    | some positions ↦ some (p ∷ positions)
  ]
]

unfoldable pub find_index_all : ℕ → Text → Text → Option (List ℕ)
unfolding index_loop
find_index_all fuel string find = index_loop fuel string find 0

unfoldable pub all_of_loop : ℕ → Text → Text → ℕ → Option (List Text)
unfolding find_from take drop
all_of_loop zero string find position = none
all_of_loop (suc fuel) string find position = elim (find_from string find position) [
  | none ↦ some []
  | some p ↦ elim (all_of_loop fuel string find (p + length find)) [
    | none ↦ none
    | some results ↦ some (take (drop string p) (length find) ∷ results)
  ]
]

unfoldable pub find_all_of : ℕ → Text → Text → Option (List Text)
unfolding all_of_loop
find_all_of fuel string find = all_of_loop fuel string find 0
