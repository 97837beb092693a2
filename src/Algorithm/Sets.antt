-- ===== src/Algorithm/Sets.antt =====
-- The set operations of src/cogs/core/algorithm.h as operations on sets of keys.
use reactaio.Prelude.{
  true, false, ℕ, ◌≡◌, refl, Bool, not, ◌&&◌, ◌||◌, List, [], ◌∷◌, Option, some, arith, All,
  Option-cases, Bool-cases, inl, inr, ap, ◌∙◌, map, option_inj, sym,
}
use reactaio.UniqueVector.{contains, insert}
use reactaio.UniqueVector.Insert.{
  IsSorted, Quiet, sorted_insert, insert-Quiet, insert-IsSorted, contains-sorted_insert, All-insert,
}
use reactaio.Algorithm.{
  copy_if, set_difference, set_intersection, set_symmetric_difference, transform,
}

module _ {ℓ} {A : Type ℓ} (key : A → ℕ) where
  -- `contains` sees no more of a value than its key.
  pub contains-key : (xs : List A) (v w : A) → key v ≡ key w → contains key xs v ≡ contains key xs w
  unfolding contains
  contains-key [] v w e = refl
  contains-key (x ∷ xs) v w e = rw (e, contains-key xs v w e)

module _ {ℓ} {A : Type ℓ} (key : A → ℕ) (past_end : List A → Option A) where
  -- The loop of the set operations, over a test that sees keys alone.
  copy_if_lem :
      (pred : A → Bool)
      → ((v w : A) → key v ≡ key w → pred v ≡ pred w)
      → (input output : List A) → All (Quiet key past_end) input
      → (ys : List A) × (copy_if key past_end input output pred ≡ some ys)
        × ((w : A)
            → contains key ys w ≡ (contains key output w || (contains key input w && pred w)))
  unfolding copy_if contains
  copy_if_lem pred same [] output q = (output, refl, λ w. ground arith)
  copy_if_lem pred same (x ∷ input) output (q, qs) = elim (Bool-cases (pred x)) [
    | inl e ↦
        let (ys, run, law) = copy_if_lem pred same input (sorted_insert key x output) qs in
        (
          ys,
          ground (arith, insert-Quiet key past_end x output q, run),
          λ w. ground (arith, law w, contains-sorted_insert key x w output, same x w),
        )
    | inr e ↦
        let (ys, run, law) = copy_if_lem pred same input output qs in
        (ys, ground (arith, run), λ w. ground (arith, law w, same x w))
  ]

  -- A `copy_if` that returns into a sorted output leaves it sorted, whatever lies behind its last
  -- element.
  pub copy_if-IsSorted :
      (pred : A → Bool) (input output : List A) {ys : List A}
      → copy_if key past_end input output pred ≡ some ys
      → IsSorted key output
      → IsSorted key ys
  unfolding copy_if
  copy_if-IsSorted pred [] output h s = ground arith
  copy_if-IsSorted pred (x ∷ input) output {ys} h s = elim (Bool-cases (pred x)) [
    | inr e ↦ copy_if-IsSorted pred input output (rw (e, copy_if) at h) s
    | inl e ↦ elim (Option-cases (insert key past_end x output)) [
      | inl f ↦ ground arith
      | inr (out, f) ↦
          copy_if-IsSorted pred input out (ground arith) (insert-IsSorted key past_end x output f s)
    ]
  ]

  set_difference-copy_if :
      (range1 range2 output : List A)
      → set_difference key past_end range1 range2 output
        ≡ copy_if key past_end range1 output (λ x. not (contains key range2 x))
  unfolding set_difference copy_if
  set_difference-copy_if [] range2 output = refl
  set_difference-copy_if (x ∷ range1) range2 output = elim (Bool-cases (contains key range2 x)) [
    | inl e ↦ ground (arith, set_difference-copy_if range1 range2 output)
    | inr e ↦ elim (Option-cases (insert key past_end x output)) [
      | inl f ↦ ground arith
      | inr (out, f) ↦ ground (arith, set_difference-copy_if range1 range2 out)
    ]
  ]

  set_intersection-copy_if :
      (range1 range2 output : List A)
      → set_intersection key past_end range1 range2 output
        ≡ copy_if key past_end range1 output (λ x. contains key range2 x)
  unfolding set_intersection copy_if
  set_intersection-copy_if [] range2 output = refl
  set_intersection-copy_if (x ∷ range1) range2 output = elim (Bool-cases (contains key range2 x)) [
    | inr e ↦ ground (arith, set_intersection-copy_if range1 range2 output)
    | inl e ↦ elim (Option-cases (insert key past_end x output)) [
      | inl f ↦ ground arith
      | inr (out, f) ↦ ground (arith, set_intersection-copy_if range1 range2 out)
    ]
  ]

  -- The difference returns, and adds to the output the elements of the first range that the second
  -- lacks, and no others; reads behind the last element must give something other than these.
  pub set_difference_lem :
      (range1 range2 output : List A)
      → All (Quiet key past_end) range1
      → (ys : List A) × (set_difference key past_end range1 range2 output ≡ some ys)
        × ((w : A)
            → contains key ys w
              ≡ (contains key output w || (contains key range1 w && not (contains key range2 w))))
  set_difference_lem range1 range2 output q =
      let (ys, run, law) =
        copy_if_lem (λ x. not (contains key range2 x))
          (λ v w e. ap not (contains-key key range2 v w e)) range1 output q in
      (ys, set_difference-copy_if range1 range2 output ∙ run, law)

  pub All-set_difference {κ} :
      (P : A → Type κ) (range1 range2 output : List A) {ys : List A}
      → set_difference key past_end range1 range2 output ≡ some ys
      → All P range1
      → All P output
      → All P ys
  unfolding set_difference
  All-set_difference P [] range2 output h ps qs = rw (sym (option_inj h)) qs
  All-set_difference P (x ∷ range1) range2 output h (p, ps) qs =
      elim (Bool-cases (contains key range2 x)) [
        | inl e ↦ All-set_difference P range1 range2 output (rw (set_difference, e) at h) ps qs
        | inr e ↦ elim (Option-cases (insert key past_end x output)) [
          | inl f ↦ absurd (ground (arith, rw (set_difference, e, f) at h))
          | inr (out, f) ↦
              All-set_difference P range1 range2 out (rw (set_difference, e, f) at h) ps
                (All-insert key P past_end x output f p qs)
        ]
      ]

  -- The intersection returns, and adds to the output the elements of the first range that the second
  -- has too, and no others; reads behind the last element must give something other than these.
  pub set_intersection_lem :
      (range1 range2 output : List A)
      → All (Quiet key past_end) range1
      → (ys : List A) × (set_intersection key past_end range1 range2 output ≡ some ys)
        × ((w : A)
            → contains key ys w
              ≡ (contains key output w || (contains key range1 w && contains key range2 w)))
  set_intersection_lem range1 range2 output q =
      let (ys, run, law) =
        copy_if_lem (λ x. contains key range2 x) (contains-key key range2) range1 output q in
      (ys, set_intersection-copy_if range1 range2 output ∙ run, law)

  -- The symmetric difference returns, and adds the elements that are in one range and not in both;
  -- reads behind the last element must give something other than the elements of the ranges.
  pub set_symmetric_difference_lem :
      (range1 range2 output : List A)
      → All (Quiet key past_end) range1
      → All (Quiet key past_end) range2
      → (ys : List A) × (set_symmetric_difference key past_end range1 range2 output ≡ some ys)
        × ((w : A)
            → contains key ys w ≡ (
                contains key output w
                || (contains key range1 w && not (contains key range2 w))
                || (contains key range2 w && not (contains key range1 w))))
  unfolding set_symmetric_difference contains
  set_symmetric_difference_lem range1 range2 output q1 q2 =
      let (both, e0, law0) = set_intersection_lem range1 range2 [] q1 in
      let (out, e1, law1) = set_difference_lem range1 both output q1 in
      let (ys, e2, law2) = set_difference_lem range2 both out q2 in
      (ys, ground (arith, e0, e1, e2), λ w. ground (arith, law0 w, law1 w, law2 w))

  -- `transform` returns, and adds the images of the input and nothing else; reads behind the last
  -- element must give something other than the images.
  pub transform_lem {κ} :
      {B : Type κ} (input : List B) (output : List A) (proj : B → A)
      → All (Quiet key past_end) (map proj input)
      → (ys : List A) × (transform key past_end input output proj ≡ some ys)
        × ((w : A) → contains key ys w ≡ (contains key output w || contains key (map proj input) w))
  unfolding transform contains
  transform_lem [] output proj q = (output, refl, λ w. ground arith)
  transform_lem (b ∷ input) output proj (q, qs) =
      let (ys, run, law) = transform_lem input (sorted_insert key (proj b) output) proj qs in
      (
        ys,
        ground (arith, insert-Quiet key past_end (proj b) output q, run),
        λ w. ground (arith, law w, contains-sorted_insert key (proj b) w output),
      )

  -- Of two ranges with no common element the intersection is empty, whatever the memory holds.
  pub set_intersection_disjoint :
      (range1 range2 output : List A)
      → ((w : A) → contains key range1 w ≡ true → contains key range2 w ≡ false)
      → set_intersection key past_end range1 range2 output ≡ some output
  unfolding set_intersection contains
  set_intersection_disjoint [] range2 output h = refl
  set_intersection_disjoint (x ∷ range1) range2 output h =
      ground
        (arith, h x, set_intersection_disjoint range1 range2 output (λ w c. h w (ground arith)))
