-- ===== src/UniqueVector/Refinement.antt =====
-- Sequences of the operations of src/cogs/core/containers/unique_vector.h, and the sets that they
-- stand for.
use reactaio.Prelude.{
  ℕ, ◌≡◌, refl, Bool, false, not, ◌&&◌, ◌||◌, List, [], ◌∷◌, Option, none, some, ◌==◌, arith,
}
use reactaio.UniqueVector.{contains, erase, insert, insert_range, clear, assign}
use reactaio.UniqueVector.Insert.{
  IsSorted, Quiet, sorted_insert, insert-Quiet, insert-IsSorted, contains-sorted_insert,
}
use reactaio.UniqueVector.Access.{erase_lem}

pub data Op {ℓ} (A : Type ℓ) : Type ℓ where
  insert_value : A → Op A
  insert_values : List A → Op A
  erase_value : A → Op A
  clear_all : Op A
  assign_values : List A → Op A

module _ {ℓ} {A : Type ℓ} (key : A → ℕ) where
  unfoldable pub apply : (List A → Option A) → Op A → List A → Option (List A)
  apply past_end (insert_value v) xs = insert key past_end v xs
  apply past_end (insert_values vs) xs = insert_range key past_end vs xs
  apply past_end (erase_value v) xs = some (erase key v xs)
  apply past_end clear_all xs = some (clear key xs)
  apply past_end (assign_values vs) xs = assign key past_end vs xs

  unfoldable pub run : (List A → Option A) → List (Op A) → List A → Option (List A)
  unfolding apply
  run past_end [] xs = some xs
  run past_end (op ∷ ops) xs = elim (apply past_end op xs) [
    | none ↦ none
    | some ys ↦ run past_end ops ys
  ]

  -- The operations on a set, which is its membership test.
  abbrev pub add : A → (A → Bool) → A → Bool
  add v has w = key v == key w || has w

  abbrev pub add_all : List A → (A → Bool) → A → Bool
  add_all [] has = has
  add_all (v ∷ vs) has = add_all vs (add v has)

  abbrev pub change : Op A → (A → Bool) → A → Bool
  change (insert_value v) has = add v has
  change (insert_values vs) has = add_all vs has
  change (erase_value v) has = λ w. not (key v == key w) && has w
  change clear_all has = λ w. false
  change (assign_values vs) has = add_all vs (λ w. false)

  abbrev pub replay : List (Op A) → (A → Bool) → A → Bool
  replay [] has = has
  replay (op ∷ ops) has = replay ops (change op has)

  -- No read behind the last element faults or meets one of the values.
  abbrev pub AllQuiet : (List A → Option A) → List A → Type ℓ
  AllQuiet past_end [] = Unit {ℓ}
  AllQuiet past_end (v ∷ vs) = Quiet key past_end v × AllQuiet past_end vs

  abbrev pub QuietOp : (List A → Option A) → Op A → Type ℓ
  QuietOp past_end (insert_value v) = Quiet key past_end v
  QuietOp past_end (insert_values vs) = AllQuiet past_end vs
  QuietOp past_end (erase_value v) = Unit {ℓ}
  QuietOp past_end clear_all = Unit {ℓ}
  QuietOp past_end (assign_values vs) = AllQuiet past_end vs

  abbrev pub QuietOps : (List A → Option A) → List (Op A) → Type ℓ
  QuietOps past_end [] = Unit {ℓ}
  QuietOps past_end (op ∷ ops) = QuietOp past_end op × QuietOps past_end ops

  -- A result that is a sorted container with the elements of the set.
  pub record Implements (r : Option (List A)) (has : A → Bool) : Type ℓ where
    pub elements : List A
    pub returned : r ≡ some elements
    pub sorted : IsSorted key elements
    pub same : (w : A) → contains key elements w ≡ has w

  insert-Implements :
      (past_end : List A → Option A) (v : A) (xs : List A) (has : A → Bool)
      → Quiet key past_end v
      → IsSorted key xs
      → ((w : A) → contains key xs w ≡ has w)
      → Implements (insert key past_end v xs) (add v has)
  insert-Implements past_end v xs has q s h = record {
    elements = sorted_insert key v xs;
    returned = insert-Quiet key past_end v xs q;
    sorted = insert-IsSorted key past_end v xs (insert-Quiet key past_end v xs q) s;
    same = λ w. ground (arith, contains-sorted_insert key v w xs, h w);
  }

  insert_range-Implements :
      (past_end : List A → Option A) (vs xs : List A) (has : A → Bool)
      → AllQuiet past_end vs
      → IsSorted key xs
      → ((w : A) → contains key xs w ≡ has w)
      → Implements (insert_range key past_end vs xs) (add_all vs has)
  unfolding insert_range
  insert_range-Implements past_end [] xs has q s h = record {
    elements = xs;
    returned = refl;
    sorted = s;
    same = h;
  }
  insert_range-Implements past_end (v ∷ vs) xs has (q, qs) s h =
      let i = insert-Implements past_end v xs has q s h in
      rw (insert_range, i.returned)
        (insert_range-Implements past_end vs i.elements (add v has) qs i.sorted i.same)

  apply-Implements :
      (past_end : List A → Option A) (op : Op A) (xs : List A) (has : A → Bool)
      → QuietOp past_end op
      → IsSorted key xs
      → ((w : A) → contains key xs w ≡ has w)
      → Implements (apply past_end op xs) (change op has)
  unfolding apply clear assign contains
  apply-Implements past_end (insert_value v) xs has q s h =
      insert-Implements past_end v xs has q s h
  apply-Implements past_end (insert_values vs) xs has q s h =
      insert_range-Implements past_end vs xs has q s h
  apply-Implements past_end (erase_value v) xs has q s h = record {
    elements = erase key v xs;
    returned = refl;
    sorted = (erase_lem key v v xs s).0;
    same = λ w. ground (arith, (erase_lem key v w xs s).1, h w);
  }
  apply-Implements past_end clear_all xs has q s h = record {
    elements = [];
    returned = refl;
    sorted = tt;
    same = λ w. refl;
  }
  apply-Implements past_end (assign_values vs) xs has q s h =
      insert_range-Implements past_end vs [] (λ w. false) q tt (λ w. refl)

  -- From a sorted container any sequence of insertions, range insertions, removals by value,
  -- clearings and range assignments returns, if no read behind the last element faults or meets a
  -- value that is being inserted; the container that it leaves is sorted, and contains what the same
  -- sequence leaves in a set.
  pub run_refines :
      (past_end : List A → Option A) (ops : List (Op A)) (xs : List A)
      → QuietOps past_end ops
      → IsSorted key xs
      → Implements (run past_end ops xs) (replay ops (contains key xs))
  unfolding run
  run_refines past_end ops xs q s = go ops xs (contains key xs) q s (λ w. refl)
    where
      go :
          (ops : List (Op A)) (xs : List A) (has : A → Bool)
          → QuietOps past_end ops
          → IsSorted key xs
          → ((w : A) → contains key xs w ≡ has w)
          → Implements (run past_end ops xs) (replay ops has)
      go [] xs has q s h = record { elements = xs; returned = refl; sorted = s; same = h }
      go (op ∷ ops) xs has (q, qs) s h =
          let i = apply-Implements past_end op xs has q s h in
          rw (run, i.returned) (go ops i.elements (change op has) qs i.sorted i.same)
