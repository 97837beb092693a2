-- ===== src/FifoMap/Refinement.antt =====
-- Sequences of the insertions of src/cogs/core/containers/fifo_map.h, and the functions that they
-- stand for.
use reactaio.Prelude.{
  ◌≡◌, refl, List, [], ◌∷◌, Option, none, some, if◌then◌else◌, Bool-cases, inl, inr, ◌∙◌,
}
use reactaio.Prelude.Eq.{Eq}
use reactaio.Prelude.Result.{Result, ok, throw, out_of_range}
use reactaio.FifoMap.{FifoMap, empty, insert, of_list, at}
use reactaio.FifoMap.Order.{IsValid, insert-IsValid, at-insert}

abbrev pub found {κ} : {V : Type κ} → Option V → Result V
found none = throw out_of_range
found (some v) = ok v

module _ {ℓ κ} {K : Type ℓ} {V : Type κ} ⦃e : Eq K⦄ where
  -- A function, changed at one key.
  abbrev pub update : K → V → (K → Option V) → K → Option V
  update k v f j = if e.beq k j then some v else f j

  abbrev pub replay : List (K × V) → (K → Option V) → K → Option V
  replay [] f = f
  replay ((k, v) ∷ l) f = replay l (update k v f)

  -- The lookups of a map are those of a function; a key without a value throws.
  pub Reads : FifoMap K V → (K → Option V) → Type (ℓ ⊔ κ)
  Reads m f = (j : K) → at j m ≡ found (f j)

  insert-Reads :
      (k : K) (v : V) (m : FifoMap K V) (f : K → Option V)
      → IsValid m
      → Reads m f
      → Reads (insert k v m) (update k v f)
  unfolding Reads
  insert-Reads k v m f h r j = elim (Bool-cases (e.beq k j)) [
    | inl q ↦ rw q (rw q at (at-insert k j v m h))
    | inr q ↦ rw q ((rw q at (at-insert k j v m h)) ∙ r j)
  ]

  of_list-Reads :
      (l : List (K × V)) (m : FifoMap K V) (f : K → Option V)
      → IsValid m
      → Reads m f
      → IsValid (of_list l m) × Reads (of_list l m) (replay l f)
  unfolding of_list
  of_list-Reads [] m f h r = (h, r)
  of_list-Reads ((k, v) ∷ l) m f h r =
      of_list-Reads l (insert k v m) (update k v f) (insert-IsValid k v m h)
        (insert-Reads k v m f h r)

  -- A map that is built from any list of pairs, whatever keys it repeats, is valid: each key has its
  -- value, and no key stands twice. Its lookups are those of the function that the same assignments
  -- in the same order make of the empty one, and they throw exactly where it has no value.
  pub of_list_refines :
      (l : List (K × V))
      → IsValid (of_list l empty) × Reads (of_list l empty) (replay l (λ _. none))
  unfolding empty Reads at
  of_list_refines l =
      of_list-Reads l empty (λ _. none) (record { paired = refl; distinct = tt }) (λ j. refl)
