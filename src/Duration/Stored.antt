-- ===== src/Duration/Stored.antt =====
-- The text of a duration in the database: what `to_string` of
-- src/cogs/core/discord/duration.h writes, and what the constructor makes of it.
use reactaio.Strings.Split.{Lacks, Follows, split_two}
use reactaio.Strings.{text_eq}
use reactaio.Prelude.{◌∙◌}
use reactaio.Prelude.{
  ℕ, suc, ◌≤◌, ◌<◌, ◌≡◌, ◌≢◌, refl, Bool, true, false, List, [], ◌∷◌, ◌++◌, none, ◌==◌, length,
  Text, arith, Bool-cases, inl, inr, All, all, append_assoc, append-nil,
}
use reactaio.Prelude.Result.{throw, invalid_argument}
use reactaio.Strings.{is_digit, is_alpha, is_all_digit}
use reactaio.Strings.Classes.{digits_alone, letters_alone, all_mono}
use reactaio.Decimal.{u64, to_string, stoull}
use reactaio.Decimal.RoundTrip.{stoull-to_string, to_string-all, to_string-ne-nil}
use reactaio.Duration.{
  TimeUnit, units, Duration, no_time, unit_name, first_name, last_name, show_loop, show, find_unit,
  read_token, read_tokens, of_string,
}

-- Each unit has names, and they are of letters alone.
abbrev Named : TimeUnit → Type 0
Named u =
    (all is_alpha (first_name u.names) ≡ true)
    × (all is_alpha (last_name u.names) ≡ true)
    × (first_name u.names ≢ [])
    × (last_name u.names ≢ [])

units-Named : All Named units
unfolding units first_name last_name
units-Named = ground arith

text_eq-nil : (n : Text) → n ≢ [] → text_eq n [] ≡ false
text_eq-nil [] h = absurd (h refl)
text_eq-nil (c ∷ n) h = refl

find_unit-nil : (us : List TimeUnit) (i : ℕ) → All Named us → find_unit [] us i ≡ none
unfolding find_unit
find_unit-nil [] i h = refl
find_unit-nil (u ∷ us) i (h, hs) =
    rw (text_eq-nil (first_name u.names) h.2, text_eq-nil (last_name u.names) h.3)
      (find_unit-nil us (suc i) hs)

show_loop-Follows :
    (b : Bool) (vs : List ℕ) (us : List TimeUnit) (c : ℕ) (res : Text)
    → (t : Text) × (show_loop b vs us (c ∷ res) ≡ (c ∷ res) ++ t) × Follows b' ' t
unfolding show_loop
show_loop-Follows b [] us c res = ([], simp append-nil, inl refl)
show_loop-Follows b (v ∷ vs) [] c res = ([], simp append-nil, inl refl)
show_loop-Follows b (v ∷ vs) (u ∷ us) c res = elim (Bool-cases (v == 0)) [
  | inl e ↦ rw (e, show_loop) (show_loop-Follows b vs us c res)
  | inr e ↦
      let (t, run, f) =
        show_loop-Follows b vs us c
          ((res ++ b' ' ∷ []) ++ (to_string v ++ b' ' ∷ unit_name b u.names)) in
      (
        b' ' ∷ (to_string v ++ b' ' ∷ (unit_name b u.names ++ t)),
        rw (e, show_loop) (run ∙ simp append_assoc),
        inr (_, refl),
      )
]

unit_name-Named : (b : Bool) (u : TimeUnit) → Named u → all is_alpha (unit_name b u.names) ≡ true
unfolding unit_name
unit_name-Named true u h = h.0
unit_name-Named false u h = h.1

-- A text of a duration that is not zero begins with a number, a space and the name of a unit.
record Begins (text : Text) : Type 0 where
  number : ℕ
  name : Text
  rest : Text
  spelt : text ≡ to_string number ++ b' ' ∷ (name ++ rest)
  bounded : number < u64
  letters : all is_alpha name ≡ true
  follows : Follows b' ' rest

start_loop :
    (b : Bool) (v : ℕ) (u : TimeUnit) (vs : List ℕ) (us : List TimeUnit) (text : Text)
    → text ≢ []
    → (t : Text) × (show_loop b vs us text ≡ text ++ t) × Follows b' ' t
start_loop b v u vs us [] h = absurd (h refl)
start_loop b v u vs us (c ∷ text) h = show_loop-Follows b vs us c text

append-ne-nil : (s t : Text) (c : ℕ) → (s ++ c ∷ t) ≢ []
append-ne-nil [] t c e = cc
append-ne-nil (a ∷ s) t c e = cc

show_loop-Begins :
    (b : Bool) (vs : List ℕ) (us : List TimeUnit)
    → length vs ≤ length us
    → All Named us
    → All (λ v. v < u64) vs
    → all (λ v. v == 0) vs ≡ false
    → Begins (show_loop b vs us [])
unfolding show_loop
show_loop-Begins b [] us l n h z = absurd (cc)
show_loop-Begins b (v ∷ vs) [] l n h z = absurd (omega arith)
show_loop-Begins b (v ∷ vs) (u ∷ us) l (n, ns) (h, hs) z = elim (Bool-cases (v == 0)) [
  | inl e ↦ rw (e, show_loop) (show_loop-Begins b vs us (omega arith) ns hs (ground arith))
  | inr e ↦
      let (t, run, f) =
        start_loop b v u vs us (to_string v ++ b' ' ∷ unit_name b u.names) (append-ne-nil _ _ _) in
      record {
        number = v;
        name = unit_name b u.names;
        rest = t;
        spelt = rw (e, show_loop) (run ∙ simp append_assoc);
        bounded = h;
        letters = unit_name-Named b u n;
        follows = f;
      }
]

read_tokens_throw :
    (number : ℕ) (name : Text) (more : List Text)
    → number < u64
    → all is_alpha name ≡ true
    → read_tokens (to_string number ∷ name ∷ more) no_time ≡ throw invalid_argument
unfolding read_tokens read_token
read_tokens_throw number name more h l =
    let (gone, same) = digits_alone (to_string number) (to_string-all number) in
    rw
      (
        same,
        gone,
        stoull-to_string number h,
        find_unit-nil units 0 units-Named,
        letters_alone name l,
      )
      (unfold stoull in refl)

no_space_in_number : (n : ℕ) → Lacks b' ' (to_string n)
unfolding is_all_digit
no_space_in_number n = all_mono is_digit _ (λ c k. ground arith) (to_string n) (to_string-all n)

no_space_in_name : (s : Text) → all is_alpha s ≡ true → Lacks b' ' s
no_space_in_name s h = all_mono is_alpha _ (λ c k. ground arith) s h

-- The text that `to_string` writes for a duration of seven 64-bit values, not all zero, is refused when
-- it is read back: the constructor finds no number in the name of the first unit.
pub of_string-show :
    (b : Bool) (d : Duration)
    → length d.values ≡ 7
    → All (λ v. v < u64) d.values
    → all (λ v. v == 0) d.values ≡ false
    → of_string (show b d) ≡ throw invalid_argument
unfolding of_string show units
of_string-show b d l h z =
    let begins = show_loop-Begins b d.values units (omega arith) units-Named h z in
    let (more, e) =
      split_two b' ' (to_string begins.number) begins.name begins.rest
        (to_string-ne-nil begins.number) (no_space_in_number begins.number)
        (no_space_in_name begins.name begins.letters) begins.follows in
    rw (begins.spelt, e)
      (read_tokens_throw begins.number begins.name more begins.bounded begins.letters)
