-- ===== src/Strings/Replace.antt =====
-- `replace_all` of src/cogs/core/strings.h against one pass over the text.
use reactaio.Prelude.{
  ℕ, zero, suc, ◌+◌, ◌-◌, ◌≡◌, ◌<◌, refl, true, false, [], ◌∷◌, ◌++◌, if◌then◌else◌, length, Text,
  arith, none, some, null, append_assoc, Option-cases, inl, inr,
}
use reactaio.Strings.{starts_with, search, take, drop, replace_loop, replace_all}

-- The reference: walk the text once, `skip` bytes of a match being left to pass over.
pub scrub : Text → Text → ℕ → Text → Text
scrub find replace skip [] = []
scrub find replace (suc skip) (c ∷ s) = scrub find replace skip s
scrub find replace zero (c ∷ s) = elim (starts_with find (c ∷ s)) [
  | true ↦ replace ++ scrub find replace (length find - 1) s
  | false ↦ c ∷ scrub find replace 0 s
]

scrub-drop :
    (find replace : Text) (n : ℕ) (s : Text)
    → scrub find replace n s ≡ scrub find replace 0 (drop n s)
unfolding scrub
scrub-drop find replace zero s = refl
scrub-drop find replace (suc n) [] = refl
scrub-drop find replace (suc n) (c ∷ s) = scrub-drop find replace n s

-- Up to the first match the walk copies.
scrub-search-none : (find replace s : Text) → search find s ≡ none → scrub find replace 0 s ≡ s
unfolding scrub search
scrub-search-none find replace [] h = refl
scrub-search-none find replace (c ∷ s) h = ground (arith, scrub-search-none find replace s)

scrub-search-some :
    (a : ℕ) (find replace s : Text) (i n : ℕ)
    → n ≡ i + length (a ∷ find)
    → search (a ∷ find) s ≡ some i
    → scrub (a ∷ find) replace 0 s ≡ take i s ++ (replace ++ scrub (a ∷ find) replace 0 (drop n s))
unfolding scrub search
scrub-search-some a find replace [] i n e h = ground arith
scrub-search-some a find replace (c ∷ s) i zero e h = absurd (omega arith)
scrub-search-some a find replace (c ∷ s) zero (suc n) e h =
    ground (arith, scrub-drop (a ∷ find) replace n s)
scrub-search-some a find replace (c ∷ s) (suc i) (suc n) e h =
    ground (arith, scrub-search-some a find replace s i n)

length-drop : (n : ℕ) (s : Text) → length (drop n s) ≡ length s - n
length-drop zero s = omega arith
length-drop (suc n) [] = omega arith
length-drop (suc n) (c ∷ s) = omega (arith, length-drop n s)

search-nil : (a i : ℕ) (find t : Text) → search (a ∷ find) t ≡ some i → 0 < length t
unfolding search
search-nil a i find [] e = ground arith
search-nil a i find (c ∷ t) e = omega arith

replace_loop-scrub :
    (fuel a : ℕ) (find replace front rest : Text)
    → length rest < fuel
    → replace_loop fuel (a ∷ find) replace front rest ≡ front ++ scrub (a ∷ find) replace 0 rest
unfolding replace_loop
replace_loop-scrub zero a find replace front rest h = absurd (omega arith)
replace_loop-scrub (suc fuel) a find replace front rest h =
    elim (Option-cases (search (a ∷ find) rest)) [
      | inl e ↦ ground (arith, scrub-search-none (a ∷ find) replace rest)
      | inr (i, e) ↦
          rw
            (
              e,
              replace_loop,
              replace_loop-scrub fuel a find replace (front ++ (take i rest ++ replace))
                  (drop (i + length (a ∷ find)) rest)
                  (omega
                    (arith, length-drop (i + length (a ∷ find)) rest, search-nil a i find rest e)),
            )
            (rw (scrub-search-some a find replace rest i _ refl e) (simp append_assoc))
    ]

-- `replace_all` is one pass over the text: each match from the left is replaced, and neither the
-- rest of a match nor the replacement is searched again. Its loop ends on every text.
pub replace_all-scrub :
    (string find replace : Text)
    → replace_all string find replace ≡ (if null find then string else scrub find replace 0 string)
unfolding replace_all
replace_all-scrub string [] replace = refl
replace_all-scrub [] (a ∷ find) replace = unfold scrub in refl
replace_all-scrub (c ∷ s) (a ∷ find) replace =
    replace_loop-scrub (suc (length (c ∷ s))) a find replace [] (c ∷ s) (omega arith)
