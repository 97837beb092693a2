-- ===== src/UniqueVector/Insert.antt =====
-- What `insert` of src/cogs/core/containers/unique_vector.h does to a sorted container.
use reactaio.Prelude.{
  ◌⊎◌, sym, ◌∙◌, All, Bool-cases, inl, inr, ℕ, suc, ◌≤◌, ◌≡◌, ◌≢◌, refl, Bool, ◌||◌, List, [], ◌∷◌,
  Option, none, some, ltb, ◌==◌, if◌then◌else◌, all, arith,
}
use reactaio.UniqueVector.{lower_bound, emplace, contains, deref, insert}

module _ {ℓ} {A : Type ℓ} (key : A → ℕ) where
  -- Keys rise strictly along the container, from `n` on.
  abbrev pub From : ℕ → List A → Type 0
  From n [] = Unit {0}
  From n (x ∷ xs) = (n ≤ key x) × From (suc (key x)) xs

  abbrev pub IsSorted : List A → Type 0
  IsSorted = From 0

  -- The reference: sorted insertion, which leaves a container with an equal value as it is.
  pub sorted_insert : A → List A → List A
  sorted_insert v [] = v ∷ []
  sorted_insert v (x ∷ xs) =
      if ltb (key v) (key x)
      then v ∷ x ∷ xs
      else if key x == key v
      then x ∷ xs
      else x ∷ sorted_insert v xs

  pub All-sorted_insert {κ} :
      (P : A → Type κ) (v : A) (xs : List A) → P v → All P xs → All P (sorted_insert v xs)
  unfolding sorted_insert
  All-sorted_insert P v [] p ps = (p, tt)
  All-sorted_insert P v (x ∷ xs) p (q, ps) = elim (Bool-cases (ltb (key v) (key x))) [
    | inl e ↦ rw (sorted_insert, e) (p, (q, ps))
    | inr e ↦ elim (Bool-cases (key x == key v)) [
      | inl f ↦ rw (sorted_insert, e, f) (q, ps)
      | inr f ↦ rw (sorted_insert, e, f) (q, All-sorted_insert P v xs p ps)
    ]
  ]

  -- Every element is less than `v`, so that `lower_bound` is `end()`.
  pub all_below : A → List A → Bool
  all_below v = all (λ x. ltb (key x) (key v))

  -- The outcome of an insertion, from what lies behind the last element.
  pub outcome : Option A → A → List A → Option (List A)
  unfolding sorted_insert all_below
  outcome beyond v xs =
      if all_below v xs
      then elim beyond [
        | none ↦ none
        | some w ↦ some (if key w == key v then xs else sorted_insert v xs)
      ]
      else some (sorted_insert v xs)

  place : Option A → A → List A → Option (List A)
  unfolding lower_bound deref emplace
  place beyond v xs = elim (deref key beyond xs (lower_bound key v xs)) [
    | none ↦ none
    | some w ↦ some (if key w == key v then xs else emplace key (lower_bound key v xs) v xs)
  ]

  place-outcome :
      (beyond : Option A) (v : A) (xs : List A) → place beyond v xs ≡ outcome beyond v xs
  unfolding place outcome
  place-outcome none v [] = refl
  place-outcome (some w) v [] = ground arith
  place-outcome beyond v (x ∷ xs) = ground (arith, place-outcome beyond v xs)

  -- `insert` is sorted insertion, except at the end of the container, where the outcome hangs on
  -- what is read behind the last element: a fault, a value lost, or the insertion.
  pub insert-outcome :
      (past_end : List A → Option A) (v : A) (xs : List A)
      → insert key past_end v xs ≡ outcome (past_end xs) v xs
  unfolding insert place
  insert-outcome past_end v xs = place-outcome (past_end xs) v xs

  sorted_insert-From :
      (n : ℕ) (v : A) (xs : List A) → n ≤ key v → From n xs → From n (sorted_insert v xs)
  unfolding sorted_insert
  sorted_insert-From n v [] h s = (h, tt)
  sorted_insert-From n v (x ∷ xs) h s = ground (arith, sorted_insert-From (suc (key x)) v xs)

  pub contains-sorted_insert :
      (v w : A) (xs : List A)
      → contains key (sorted_insert v xs) w ≡ (key v == key w || contains key xs w)
  unfolding sorted_insert contains
  contains-sorted_insert v w [] = ground arith
  contains-sorted_insert v w (x ∷ xs) = ground (arith, contains-sorted_insert v w xs)

  -- Whatever is read behind the last element, an insertion that returns from a sorted container with
  -- no value twice leaves one.
  pub insert-IsSorted :
      (past_end : List A → Option A) (v : A) (xs : List A) {ys : List A}
      → insert key past_end v xs ≡ some ys
      → IsSorted xs
      → IsSorted ys
  unfolding outcome
  insert-IsSorted past_end v xs h s =
      ground (arith, insert-outcome past_end v xs, sorted_insert-From 0 v xs)

  -- What is read behind the last element is an object, and not one equal to `v`.
  abbrev pub Quiet : (List A → Option A) → A → Type ℓ
  Quiet past_end v = (xs : List A) → (w : A) × (past_end xs ≡ some w) × (key w ≢ key v)

  pub insert-Quiet :
      (past_end : List A → Option A) (v : A) (xs : List A)
      → Quiet past_end v
      → insert key past_end v xs ≡ some (sorted_insert v xs)
  unfolding outcome
  insert-Quiet past_end v xs q =
      let (w, e, n) = q xs in ground (arith, insert-outcome past_end v xs)

  -- An insertion that returns leaves the container, or does a sorted insertion.
  pub insert_cases :
      (past_end : List A → Option A) (v : A) (xs : List A) {ys : List A}
      → insert key past_end v xs ≡ some ys
      → (ys ≡ xs) ⊎ (ys ≡ sorted_insert v xs)
  unfolding outcome
  insert_cases past_end v xs {ys} h =
      let out : outcome (past_end xs) v xs ≡ some ys = sym (insert-outcome past_end v xs) ∙ h in
      ground (arith, out)

  pub All-insert {κ} :
      (P : A → Type κ) (past_end : List A → Option A) (v : A) (xs : List A) {ys : List A}
      → insert key past_end v xs ≡ some ys
      → P v
      → All P xs
      → All P ys
  All-insert P past_end v xs h p ps = elim (insert_cases past_end v xs h) [
    | inl e ↦ rw e ps
    | inr e ↦ rw e (All-sorted_insert P v xs p ps)
  ]
