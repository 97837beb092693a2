-- ===== src/FifoMap/Order.antt =====
-- The lookups and the order of src/cogs/core/containers/fifo_map.h.
use reactaio.Prelude.{
  ℕ, zero, suc, ◌≡◌, refl, Bool, true, false, List, [], ◌∷◌, ◌++◌, Option, none, some,
  if◌then◌else◌, get_elem?, set, length, length-append, length-set, arith, Option-cases, inl, inr,
}
use reactaio.Prelude.Eq.{Eq, nat_eq}
use reactaio.Prelude.Result.{ok, throw, out_of_range}
use reactaio.FifoMap.{FifoMap, index_of, insert, of_list, at}

module _ {ℓ} {K : Type ℓ} ⦃e : Eq K⦄ where
  unfoldable pub mem : K → List K → Bool
  mem k [] = false
  mem k (x ∷ xs) = if e.beq x k then true else mem k xs

  -- No key stands twice.
  abbrev pub Distinct : List K → Type 0
  Distinct [] = Unit {0}
  Distinct (x ∷ xs) = (mem x xs ≡ false) × Distinct xs

  mem-index_of :
      (k : K) (xs : List K) → mem k xs ≡ elim (index_of k xs) [ none ↦ false | some _ ↦ true ]
  unfolding mem index_of
  mem-index_of k [] = refl
  mem-index_of k (x ∷ xs) = ground (arith, mem-index_of k xs)

  mem-snoc : (k j : K) (xs : List K) → mem j (xs ++ k ∷ []) ≡ (if mem j xs then true else e.beq k j)
  unfolding mem
  mem-snoc k j [] = ground arith
  mem-snoc k j (x ∷ xs) = ground (arith, mem-snoc k j xs)

  Distinct-snoc : (k : K) (xs : List K) → mem k xs ≡ false → Distinct xs → Distinct (xs ++ k ∷ [])
  unfolding mem
  Distinct-snoc k [] h d = (refl, tt)
  Distinct-snoc k (x ∷ xs) h (d, ds) = (
    ground (arith, mem-snoc k x xs, e.beq_iff x k, e.beq_iff k x),
    Distinct-snoc k xs (ground arith) ds,
  )

module _ {ℓ κ} {K : Type ℓ} {V : Type κ} ⦃e : Eq K⦄ where
  -- Each key has its value, and no key stands twice.
  pub record IsValid (m : FifoMap K V) : Type 0 where
    pub paired : length m.keys ≡ length m.values
    pub distinct : Distinct m.keys

  -- A key that is new goes to the end; a key that is there keeps its place.
  pub keys-insert :
      (k : K) (v : V) (m : FifoMap K V)
      → (insert k v m).keys ≡ (if mem k m.keys then m.keys else m.keys ++ k ∷ [])
  unfolding insert
  keys-insert k v m = ground (arith, mem-index_of k m.keys)

  pub insert-IsValid : (k : K) (v : V) (m : FifoMap K V) → IsValid m → IsValid (insert k v m)
  unfolding insert
  insert-IsValid k v m h = elim (Option-cases (index_of k m.keys)) [
    | inr (i, f) ↦
        rw (f, insert)
          (record {
            paired = omega (arith, h.paired, length-set m.values i v);
            distinct = h.distinct;
          })
    | inl f ↦
        rw (f, insert)
          (record {
            paired =
                omega
                  (arith, h.paired, length-append m.keys (k ∷ []), length-append m.values (v ∷ []));
            distinct = Distinct-snoc k m.keys (ground (arith, mem-index_of k m.keys)) h.distinct;
          })
  ]

  -- The pairs of a list, whatever keys it repeats, put into a valid map leave it valid.
  pub of_list-IsValid : (l : List (K × V)) (m : FifoMap K V) → IsValid m → IsValid (of_list l m)
  unfolding of_list
  of_list-IsValid [] m h = h
  of_list-IsValid ((k, v) ∷ l) m h = of_list-IsValid l (insert k v m) (insert-IsValid k v m h)

  get : K → List K → List V → Option V
  get k ks vs = elim (index_of k ks) [ none ↦ none | some i ↦ get_elem? vs i ]

  get-set :
      (k j : K) (v : V) (ks : List K) (vs : List V) (i : ℕ)
      → length ks ≡ length vs
      → index_of k ks ≡ some i
      → get j ks (set vs i v) ≡ (if e.beq k j then some v else get j ks vs)
  unfolding get index_of
  get-set k j v [] vs i l f = ground arith
  get-set k j v (x ∷ ks) [] i l f = absurd (omega arith)
  get-set k j v (x ∷ ks) (y ∷ vs) zero l f =
      ground (arith, e.beq_iff x k, e.beq_iff k j, e.beq_iff x j)
  get-set k j v (x ∷ ks) (y ∷ vs) (suc i) l f =
      ground (arith, get-set k j v ks vs i, e.beq_iff x k, e.beq_iff k j, e.beq_iff x j)

  get-snoc :
      (k j : K) (v : V) (ks : List K) (vs : List V)
      → length ks ≡ length vs
      → index_of k ks ≡ none
      → get j (ks ++ k ∷ []) (vs ++ v ∷ []) ≡ (if e.beq k j then some v else get j ks vs)
  unfolding get index_of
  get-snoc k j v [] [] l f = ground arith
  get-snoc k j v [] (y ∷ vs) l f = absurd (omega arith)
  get-snoc k j v (x ∷ ks) [] l f = absurd (omega arith)
  get-snoc k j v (x ∷ ks) (y ∷ vs) l f =
      ground (arith, get-snoc k j v ks vs, e.beq_iff x k, e.beq_iff k j, e.beq_iff x j)

  at-get :
      (k : K) (m : FifoMap K V)
      → at k m ≡ elim (get k m.keys m.values) [ none ↦ throw out_of_range | some v ↦ ok v ]
  unfolding at get
  at-get k m = ground arith

  -- In a valid map a lookup after an insertion finds the new value under its key, and under every other key what
  -- it found before, an exception included.
  pub at-insert :
      (k j : K) (v : V) (m : FifoMap K V)
      → IsValid m
      → at j (insert k v m) ≡ (if e.beq k j then ok v else at j m)
  unfolding insert
  at-insert k j v m h = elim (Option-cases (index_of k m.keys)) [
    | inl f ↦
        rw (f, insert)
          (ground (
            arith,
            at-get j m,
            at-get j (record { keys = m.keys ++ k ∷ []; values = m.values ++ v ∷ [] }),
            get-snoc k j v m.keys m.values h.paired f,
          ))
    | inr (i, f) ↦
        rw (f, insert)
          (ground (
            arith,
            at-get j m,
            at-get j (record m { values = set m.values i v }),
            get-set k j v m.keys m.values i h.paired f,
          ))
  ]
