-- ===== src/Helpers/Search/Ends.antt =====
-- The ends of the searches of src/cogs/core/helpers.cpp, and the occurrences that they find.
use reactaio.Prelude.{
  ap, sym, ◌∙◌, leb→le, ℕ, zero, suc, ◌+◌, ◌-◌, ◌≤◌, ◌<◌, ◌≡◌, refl, true, false, List, [], ◌∷◌,
  none, some, leb, length, null, Text, map, arith, Bool-cases, Option-cases, inl, inr,
}
use reactaio.Helpers.Search.{
  is_prefix, drop, take, first_index, find_from, index_loop, find_index_all, all_of_loop,
  find_all_of,
}

abbrev pub Occurs : Text → Text → ℕ → Type 0
Occurs string find p = is_prefix find (drop string p) ≡ true

-- The first occurrence from place `n` on.
pub record First (string find : Text) (n p : ℕ) : Type 0 where
  pub after : n ≤ p
  pub occurs : Occurs string find p
  pub fits : p + length find ≤ length string
  pub none_before : (q : ℕ) → n ≤ q → Occurs string find q → p ≤ q

prefix_fits : (find s : Text) → is_prefix find s ≡ true → length find ≤ length s
unfolding is_prefix
prefix_fits [] s h = omega arith
prefix_fits (c ∷ find) [] h = absurd (ground arith)
prefix_fits (c ∷ find) (d ∷ s) h = omega (arith, prefix_fits find s (ground arith))

first_index-Occurs :
    (find s : Text) (p : ℕ)
    → first_index find s ≡ some p
    → Occurs s find p × (p + length find ≤ length s)
unfolding first_index drop
first_index-Occurs find [] p h = ground (arith, prefix_fits find [])
first_index-Occurs find (c ∷ s) p h = elim (Bool-cases (is_prefix find (c ∷ s))) [
  | inl e ↦ ground (arith, prefix_fits find (c ∷ s) e)
  | inr e ↦ elim (Option-cases (first_index find s)) [
    | inl f ↦ absurd (ground arith)
    | inr (i, f) ↦ ground (arith, first_index-Occurs find s i f)
  ]
]

prefix_nil : (find : Text) → is_prefix find [] ≡ true → null find ≡ true
unfolding is_prefix
prefix_nil [] h = refl
prefix_nil (c ∷ find) h = h

drop_nil : (q : ℕ) → drop [] q ≡ []
unfolding drop
drop_nil zero = refl
drop_nil (suc q) = refl

first_index_least :
    (find s : Text) (q : ℕ)
    → null find ≡ false
    → Occurs s find q
    → (p : ℕ) × (first_index find s ≡ some p) × (p ≤ q)
unfolding first_index drop
first_index_least find [] q n o = absurd (ground (arith, n, prefix_nil find (rw (drop_nil q) at o)))
first_index_least find (c ∷ s) zero n o = (0, ground arith, omega arith)
first_index_least find (c ∷ s) (suc q) n o = elim (Bool-cases (is_prefix find (c ∷ s))) [
  | inl e ↦ (0, ground arith, omega arith)
  | inr e ↦
      let (i, f, le) = first_index_least find s q n o in (suc i, ground (arith, e, f), omega arith)
]

drop_add : (s : Text) (n i : ℕ) → drop (drop s n) i ≡ drop s (n + i)
unfolding drop
drop_add s zero i = let e : i ≡ 0 + i = omega arith in ap (drop s) e
drop_add [] (suc n) i = drop_nil i ∙ sym (drop_nil (suc n + i))
drop_add (c ∷ s) (suc n) i =
    let e : suc (n + i) ≡ suc n + i = omega arith in drop_add s n i ∙ ap (drop (c ∷ s)) e

length-drop : (s : Text) (n : ℕ) → length (drop s n) ≡ length s - n
unfolding drop
length-drop s zero = omega arith
length-drop [] (suc n) = omega arith
length-drop (c ∷ s) (suc n) = omega (arith, length-drop s n)

null-length : (find : Text) → null find ≡ false → 1 ≤ length find
null-length [] e = absurd (ground arith)
null-length (c ∷ find) e = omega arith

-- An occurrence of a text that is not empty, seen from a place before it.
Occurs-drop : (s find : Text) (n q : ℕ) → n ≤ q → Occurs s find q → Occurs (drop s n) find (q - n)
Occurs-drop s find n q le o =
    let e : n + (q - n) ≡ q = omega arith in rw (drop_add s n (q - n), e) o

find_from-First :
    (s find : Text) (n p : ℕ) → null find ≡ false → find_from s find n ≡ some p → First s find n p
unfolding find_from
find_from-First s find n p e h = elim (Bool-cases (leb n (length s))) [
  | inr f ↦ absurd (ground arith)
  | inl f ↦ elim (Option-cases (first_index find (drop s n))) [
    | inl g ↦ absurd (ground arith)
    | inr (i, g) ↦ go f i g (ground arith) (first_index-Occurs find (drop s n) i g)
  ]
]
  where
    go :
        leb n (length s) ≡ true
        → (i : ℕ) → first_index find (drop s n) ≡ some i
        → p ≡ n + i
        → Occurs (drop s n) find i × (i + length find ≤ length (drop s n))
        → First s find n p
    go f i g k (o, b) = record {
      after = omega (arith, k);
      occurs = rw (k, sym (drop_add s n i)) o;
      fits = omega (arith, k, b, length-drop s n, leb→le n (length s) f);
      none_before = λ q le oq.
          let (i', g', le') =
            first_index_least find (drop s n) (q - n) e (Occurs-drop s find n q le oq) in
          let same : i' ≡ i = ground (arith, g, g') in omega (arith, k, le', same, le);
    }

find_from_least :
    (s find : Text) (n q : ℕ)
    → null find ≡ false
    → Occurs s find q
    → n ≤ q
    → (p : ℕ) × (find_from s find n ≡ some p)
unfolding find_from
find_from_least s find n q e o le =
    let (i, g, _) = first_index_least find (drop s n) (q - n) e (Occurs-drop s find n q le o) in
    let inside : n ≤ length s =
      omega (arith, prefix_fits find (drop s q) o, length-drop s q, null-length find e, le) in
    (n + i, ground (arith, g, inside))

-- Occurrences from place `n` on, one behind the end of the other, that leave no room for a further
-- one.
abbrev pub Complete : Text → Text → ℕ → List ℕ → Type 0
Complete s find n [] = (q : ℕ) → n ≤ q → is_prefix find (drop s q) ≡ false
Complete s find n (p ∷ positions) = First s find n p × Complete s find (p + length find) positions

index_loop-Complete :
    (fuel : ℕ) (s find : Text) (n : ℕ)
    → null find ≡ false
    → n ≤ length s
    → length s < fuel + n
    → (positions : List ℕ) × (index_loop fuel s find n ≡ some positions)
      × Complete s find n positions
unfolding index_loop
index_loop-Complete zero s find n e b l = absurd (omega (arith, b, l))
index_loop-Complete (suc fuel) s find n e b l = elim (Option-cases (find_from s find n)) [
  | inl f ↦ (
    [],
    rw (index_loop, f) refl,
    λ q le. elim (Bool-cases (is_prefix find (drop s q))) [
      | inl o ↦ let (p, g) = find_from_least s find n q e o le in absurd (ground (arith, f, g))
      | inr o ↦ o
    ],
  )
  | inr (p, f) ↦
      let first = find_from-First s find n p e f in
      let (rest, g, complete) =
        index_loop-Complete fuel s find (p + length find) e first.fits
          (omega (arith, first.after, null-length find e, l)) in
      (p ∷ rest, rw (index_loop, f, g) refl, (first, complete))
]

-- On a text to find that is not empty, `find_index_all` ends in at most one round more than there are
-- bytes in the string. The positions that it returns are occurrences: the first one, then each time
-- the first one that begins behind the end of the one before, until there is none.
pub find_index_all_ends :
    (fuel : ℕ) (string find : Text)
    → null find ≡ false
    → length string < fuel
    → (positions : List ℕ) × (find_index_all fuel string find ≡ some positions)
      × Complete string find 0 positions
unfolding find_index_all
find_index_all_ends fuel string find e l =
    index_loop-Complete fuel string find 0 e (omega arith) (omega (arith, l))

first_index_empty : (s : Text) → first_index [] s ≡ some 0
unfolding first_index is_prefix
first_index_empty [] = refl
first_index_empty (c ∷ s) = refl

-- With an empty text to find neither loop ends, on any string and whatever the number of rounds.
pub empty_never_ends :
    (fuel : ℕ) (string : Text)
    → (find_index_all fuel string [] ≡ none) × (find_all_of fuel string [] ≡ none)
unfolding find_index_all find_all_of index_loop all_of_loop find_from
empty_never_ends fuel string = (indices fuel, results fuel)
  where
    same : find_from string [] 0 ≡ some 0
    same = ground (arith, first_index_empty (drop string 0))

    indices : (fuel : ℕ) → index_loop fuel string [] 0 ≡ none
    indices zero = refl
    indices (suc fuel) = rw (index_loop, same, indices fuel) refl

    results : (fuel : ℕ) → all_of_loop fuel string [] 0 ≡ none
    results zero = refl
    results (suc fuel) = rw (all_of_loop, same, results fuel) refl

take_prefix : (find s : Text) → is_prefix find s ≡ true → take s (length find) ≡ find
unfolding is_prefix take
take_prefix [] s h = refl
take_prefix (c ∷ find) [] h = absurd (ground arith)
take_prefix (c ∷ find) (d ∷ s) h = ground (arith, take_prefix find s)

-- `find_all_of` returns as many copies of the text to find as `find_index_all` has positions.
pub find_all_of-find_index_all :
    (fuel : ℕ) (string find : Text)
    → null find ≡ false
    → find_all_of fuel string find ≡ elim (find_index_all fuel string find) [
      | none ↦ none
      | some positions ↦ some (map (λ _. find) positions)
    ]
unfolding find_index_all find_all_of all_of_loop index_loop
find_all_of-find_index_all fuel string find e = go fuel 0
  where
    go :
        (fuel n : ℕ)
        → all_of_loop fuel string find n ≡ elim (index_loop fuel string find n) [
          | none ↦ none
          | some positions ↦ some (map (λ _. find) positions)
        ]
    go zero n = refl
    go (suc fuel) n = elim (Option-cases (find_from string find n)) [
      | inl f ↦ rw (all_of_loop, index_loop, f) refl
      | inr (p, f) ↦ elim (Option-cases (index_loop fuel string find (p + length find))) [
        | inl g ↦ rw (all_of_loop, index_loop, f, go fuel (p + length find), g) refl
        | inr (rest, g) ↦
            rw
              (
                all_of_loop,
                index_loop,
                f,
                go fuel (p + length find),
                g,
                take_prefix find (drop string p) (find_from-First string find n p e f).occurs,
              )
              refl
      ]
    ]
