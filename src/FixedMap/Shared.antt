-- ===== src/FixedMap/Shared.antt =====
-- The lookups of src/cogs/core/containers/fixed_map.h.
use reactaio.Prelude.{
  ◌≡◌, refl, true, false, List, [], ◌∷◌, ◌++◌, none, some, if◌then◌else◌, arith, Option-cases, inl,
  inr,
}
use reactaio.Prelude.Eq.{Eq}
use reactaio.Prelude.Result.{ok, throw, out_of_range}
use reactaio.FixedMap.{lookup, of_range, get_map, at, subscript, contains}

module _ {ℓ κ} {K : Type ℓ} {V : Type κ} ⦃e : Eq K⦄ where
  lookup-snoc :
      (k j : K) (v : V) (l : List (K × V))
      → lookup j (l ++ (k, v) ∷ [])
        ≡ elim (lookup j l) [ some w ↦ some w | none ↦ if e.beq k j then some v else none ]
  unfolding lookup
  lookup-snoc k j v [] = refl
  lookup-snoc k j v ((i, w) ∷ l) = ground (arith, lookup-snoc k j v l)

  lookup-of_range :
      (j : K) (l map : List (K × V))
      → lookup j (of_range l map) ≡ elim (lookup j map) [ some w ↦ some w | none ↦ lookup j l ]
  unfolding lookup of_range
  lookup-of_range j [] map = ground arith
  lookup-of_range j ((k, v) ∷ l) map = elim (Option-cases (lookup k map)) [
    | inl f ↦ rw f (ground (arith, lookup-of_range j l (map ++ (k, v) ∷ []), lookup-snoc k j v map))
    | inr (w, f) ↦ rw f (ground (arith, lookup-of_range j l map, e.beq_iff k j))
  ]

  -- The first map of its type to be asked answers with the first pair of its array that has the
  -- key. From then on every map of that type, whatever its own array, answers from the first one's.
  pub at_shared :
      (j k : K) (first second : List (K × V))
      → ((at j first none).0 ≡ elim (lookup j first) [ none ↦ throw out_of_range | some v ↦ ok v ])
        × ((at k second (at j first none).1).0 ≡ (at k first none).0)
  unfolding at get_map lookup
  at_shared j k first second = (ground (arith, lookup-of_range j first []), refl)

  -- A subscript with a key that the array lacks makes that key a part of the map: `contains` denies
  -- it before and grants it after.
  pub subscript-contains :
      (k : K) (default : V) (array : List (K × V))
      → lookup k array ≡ none
      → ((contains k array none).0 ≡ false)
        × ((contains k array (subscript default k array none).1).0 ≡ true)
  unfolding contains subscript get_map lookup
  subscript-contains k default array h = (
    ground (arith, lookup-of_range k array []),
    ground (
      arith,
      lookup-of_range k array [],
      lookup-snoc k k default (of_range array []),
      e.beq_iff k k,
    ),
  )
