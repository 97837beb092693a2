-- ===== src/UniqueVector/Access.antt =====
-- The other operations of src/cogs/core/containers/unique_vector.h: reads, removals and `reverse`.
use mathlib.Core.List.{reverse, reverse-cons}
use reactaio.Prelude.{
  ◌∙◌, Bool-cases, inl, inr, ℕ, suc, ◌<◌, ◌≤◌, ◌≡◌, refl, true, not, ◌&&◌, ◌||◌, List, [], ◌∷◌,
  ◌++◌, Option, none, some, ◌==◌, arith,
}
use reactaio.UniqueVector.{contains, erase}
use reactaio.UniqueVector.Insert.{From, IsSorted}

module _ {ℓ} {A : Type ℓ} where
  -- `front()`: undefined behaviour on an empty container.
  unfoldable pub front : List A → Option A
  front [] = none
  front (x ∷ xs) = some x

  -- `back()`
  unfoldable pub back : List A → Option A
  back [] = none
  back (x ∷ []) = some x
  back (x ∷ y ∷ xs) = back (y ∷ xs)

  -- `std::vector::pop_back`
  unfoldable pub drop_last : List A → List A
  drop_last [] = []
  drop_last (x ∷ []) = []
  drop_last (x ∷ y ∷ xs) = x ∷ drop_last (y ∷ xs)

  -- `pop_back()`: the value handed out is `front()`; the element dropped is the last one.
  unfoldable pub pop_back : List A → Option (A × List A)
  unfolding front drop_last
  pop_back xs = elim (front xs) [ none ↦ none | some x ↦ some (x, drop_last xs) ]

  drop_last-append : (xs : List A) (x : A) → drop_last (xs ++ x ∷ []) ≡ xs
  unfolding drop_last
  drop_last-append [] x = refl
  drop_last-append (y ∷ []) x = refl
  drop_last-append (y ∷ z ∷ xs) x = ground (arith, drop_last-append (z ∷ xs) x)

module _ {ℓ} {A : Type ℓ} (key : A → ℕ) where
  pub contains-erase :
      (v w : A) (xs : List A)
      → contains key (erase key v xs) w ≡ (not (key v == key w) && contains key xs w)
  unfolding contains erase
  contains-erase v w [] = ground arith
  contains-erase v w (x ∷ xs) = ground (arith, contains-erase v w xs)

  From-weaken : (m n : ℕ) (xs : List A) → m ≤ n → From key n xs → From key m xs
  From-weaken m n [] h s = tt
  From-weaken m n (x ∷ xs) h s = ground arith

  pub erase-From : (n : ℕ) (v : A) (xs : List A) → From key n xs → From key n (erase key v xs)
  unfolding erase
  erase-From n v [] s = tt
  erase-From n v (x ∷ xs) s =
      ground (arith, erase-From (suc (key x)) v xs, From-weaken n (suc (key x)) (erase key v xs))

  -- `erase(value)` on a sorted container keeps it sorted and removes the value, and no other value.
  pub erase_lem :
      (v w : A) (xs : List A)
      → IsSorted key xs
      → IsSorted key (erase key v xs)
        × (contains key (erase key v xs) w ≡ (not (key v == key w) && contains key xs w))
  erase_lem v w xs s = (erase-From 0 v xs s, contains-erase v w xs)

  last_above : (n : ℕ) (xs : List A) (x : A) → From key n (xs ++ x ∷ []) → n ≤ key x
  last_above n [] x s = s.0
  last_above n (y ∷ xs) x s = omega (arith, last_above (suc (key y)) xs x s.1)

  -- `pop_back()` on a sorted container of two or more elements: it drops the greatest element and
  -- hands out the least, which is another one and stays in the container.
  pub pop_back_mismatch :
      (x y : A) (mid : List A)
      → IsSorted key (x ∷ mid ++ y ∷ [])
      → (pop_back (x ∷ mid ++ y ∷ []) ≡ some (x, x ∷ mid))
        × (key x < key y)
        × (contains key (x ∷ mid) x ≡ true)
  unfolding pop_back front contains
  pop_back_mismatch x y mid s = (
    ground (arith, drop_last-append (x ∷ mid) y),
    last_above (suc (key x)) mid y s.1,
    ground arith,
  )

  contains-append :
      (xs ys : List A) (w : A)
      → contains key (xs ++ ys) w ≡ (contains key xs w || contains key ys w)
  unfolding contains
  contains-append [] ys w = refl
  contains-append (x ∷ xs) ys w = ground (arith, contains-append xs ys w)

  -- `reverse()` keeps every element.
  pub contains-reverse : (xs : List A) (w : A) → contains key (reverse xs) w ≡ contains key xs w
  contains-reverse [] w = refl
  contains-reverse (x ∷ xs) w =
      rw (reverse-cons x xs, contains-append (reverse xs) (x ∷ []) w, contains-reverse xs w)
        (unfold contains in ground arith)

module _ {ℓ} {A : Type ℓ} where
  front-append : (xs ys : List A) (x : A) → front xs ≡ some x → front (xs ++ ys) ≡ some x
  unfolding front
  front-append [] ys x h = cc
  front-append (y ∷ xs) ys x h = h

  back-cons : (y : A) (xs : List A) → (x : A) × (back (y ∷ xs) ≡ some x)
  unfolding back
  back-cons y [] = (y, refl)
  back-cons y (z ∷ xs) = back-cons z xs

  -- The front of the reversed container is the back.
  pub front-reverse : (xs : List A) → front (reverse xs) ≡ back xs
  unfolding back
  front-reverse [] = unfold front in refl
  front-reverse (x ∷ []) = unfold front in refl
  front-reverse (x ∷ y ∷ xs) =
      let (b, e) = back-cons y xs in
      rw (reverse-cons x (y ∷ xs), e)
        (front-append (reverse (y ∷ xs)) (x ∷ []) b (front-reverse (y ∷ xs) ∙ e))

module _ {ℓ} {A : Type ℓ} (key : A → ℕ) where
  back_greatest :
      (n : ℕ) (xs : List A) (x w : A)
      → From key n xs
      → back xs ≡ some x
      → (contains key xs x ≡ true) × (contains key xs w ≡ true → key w ≤ key x)
  unfolding back contains
  back_greatest n [] x w s h = cc
  back_greatest n (y ∷ []) x w s h = ground arith
  back_greatest n (y ∷ z ∷ xs) x w s h =
      let at_w = back_greatest (suc (key y)) (z ∷ xs) x w s.1 h in
      let at_z = back_greatest (suc (key y)) (z ∷ xs) x z s.1 h in
      (ground (arith, at_w.0), λ c. greatest at_w.1 (at_z.1 (ground arith)) c)
    where
      greatest :
          (contains key (z ∷ xs) w ≡ true → key w ≤ key x)
          → key z ≤ key x
          → contains key (y ∷ z ∷ xs) w ≡ true
          → key w ≤ key x
      greatest f le c = elim (Bool-cases (key y == key w)) [
        | inl e ↦ ground (arith, s.1)
        | inr e ↦ f (rw e at c)
      ]

  -- The back of a sorted container is its greatest element.
  pub back-IsSorted :
      (xs : List A) (x w : A)
      → IsSorted key xs
      → back xs ≡ some x
      → (contains key xs x ≡ true) × (contains key xs w ≡ true → key w ≤ key x)
  back-IsSorted = back_greatest 0
