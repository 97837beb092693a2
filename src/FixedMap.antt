-- ===== src/FixedMap.antt =====
-- src/cogs/core/containers/fixed_map.h at run time: an array of pairs, looked up through a map that
-- is a static variable of `get_map`, one for all maps of the same type.
pub mod Shared
use reactaio.Prelude.{
  ℕ, zero, suc, Bool, true, false, List, [], ◌∷◌, ◌++◌, Option, none, some, if◌then◌else◌, ltb,
  length,
}
use reactaio.Prelude.Eq.{Eq}
use reactaio.Prelude.Result.{Result, ok, throw, out_of_range}

-- `to_array` throws on a list that is too long; on one that is too short it reads behind the end of
-- the list, which is undefined (`none`).
unfoldable pub to_array {ℓ} : {A : Type ℓ} → ℕ → List A → Option (Result (List A))
to_array size list =
    if ltb size (length list)
    then some (throw out_of_range)
    else if ltb (length list) size
    then none
    else some (ok list)

module _ {ℓ κ} {K : Type ℓ} {V : Type κ} ⦃e : Eq K⦄ where
  -- The first pair with the key.
  unfoldable pub lookup : K → List (K × V) → Option V
  lookup k [] = none
  lookup k ((j, v) ∷ l) = if e.beq j k then some v else lookup k l

  -- `unordered_map` from a range: a pair whose key is there already is not inserted.
  pub of_range : List (K × V) → List (K × V) → List (K × V)
  unfolding lookup
  of_range [] map = map
  of_range ((k, v) ∷ l) map =
      of_range l (elim (lookup k map) [ some _ ↦ map | none ↦ map ++ (k, v) ∷ [] ])

  -- `get_map`: the static map is built by the first call, from the array of that call's object.
  pub get_map : Option (List (K × V)) → List (K × V) → List (K × V)
  unfolding of_range
  get_map (some map) array = map
  get_map none array = of_range array []

  -- `at(key)`, with the static variable before and after the call.
  pub at : K → List (K × V) → Option (List (K × V)) → Result V × Option (List (K × V))
  unfolding get_map lookup
  at key array static = (
    elim (lookup key (get_map static array)) [ none ↦ throw out_of_range | some v ↦ ok v ],
    some (get_map static array),
  )

  -- `operator[]`: a key that is missing is inserted with the default value.
  pub subscript : V → K → List (K × V) → Option (List (K × V)) → V × Option (List (K × V))
  unfolding get_map lookup
  subscript default key array static = elim (lookup key (get_map static array)) [
    | some v ↦ (v, some (get_map static array))
    | none ↦ (default, some (get_map static array ++ (key, default) ∷ []))
  ]

  pub contains : K → List (K × V) → Option (List (K × V)) → Bool × Option (List (K × V))
  unfolding get_map lookup
  contains key array static = (
    elim (lookup key (get_map static array)) [ none ↦ false | some v ↦ true ],
    some (get_map static array),
  )
