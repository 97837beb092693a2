-- ===== src/Helpers/Tokens.antt =====
-- `get_tokens` of src/cogs/core/helpers.cpp on texts of letters and digits.
use mathlib.Core.List.{flatten}
use reactaio.Prelude.{
  Bool-cases, ◌⊎◌, inl, inr, ℕ, ◌≡◌, refl, Bool, true, false, ◌&&◌, ◌||◌, List, [], ◌∷◌, ◌++◌, Text,
  all, All, All-append, arith, append_assoc, append-nil,
}
use reactaio.Strings.{is_digit, is_alpha, is_alnum, is_space}
use reactaio.Helpers.{ends_token, begins_token, peek, token_loop, get_tokens}

flatten_snoc : (xs : List Text) (y : Text) → flatten (xs ++ y ∷ []) ≡ flatten xs ++ y
unfolding flatten
flatten_snoc [] y = append-nil y
flatten_snoc (x ∷ xs) y = simp (flatten_snoc xs y, append_assoc)

-- One round at a letter or digit: the token ends here, or goes on.
step : Bool → Text → Text → List Text → List Text
step true s whole result = token_loop s [] (result ++ whole ∷ [])
step false s whole result = token_loop s whole result

begins_needs_end :
    (x y z s n : Bool) → (x || y || z) ≡ false → s ≡ false → ((s && n) || z || y) ≡ false
begins_needs_end x y z s n h e = ground arith

space_of_alnum : (c : ℕ) → is_alnum c ≡ true → is_space c ≡ false
space_of_alnum c h = ground arith

begins-ends :
    (c next : ℕ) → is_alnum c ≡ true → ends_token c next ≡ false → begins_token c next ≡ false
unfolding ends_token begins_token
begins-ends c next h e = begins_needs_end _ _ _ (is_space c) (is_alnum next) e (space_of_alnum c h)

ends_before_space : (c : ℕ) → is_alnum c ≡ true → ends_token c b' ' ≡ true
unfolding ends_token
ends_before_space c h = rw h

token_loop-alnum :
    (c : ℕ) (s token : Text) (result : List Text)
    → is_alnum c ≡ true
    → token_loop (c ∷ s) token result ≡ step (ends_token c (peek s)) s (token ++ c ∷ []) result
unfolding token_loop step
token_loop-alnum c s token result h = elim (Bool-cases (ends_token c (peek s))) [
  | inl e ↦ rw e
  | inr e ↦ rw (e, begins-ends c (peek s) h e)
]

token_loop_last :
    (c : ℕ) (token : Text) (result : List Text)
    → is_alnum c ≡ true
    → token_loop (c ∷ b' ' ∷ []) token result ≡ result ++ (token ++ c ∷ []) ∷ []
unfolding step
token_loop_last c token result h =
    rw (token_loop-alnum c (b' ' ∷ []) token result h, ends_before_space c h)
      (unfold token_loop in refl)

token_loop-flatten :
    (c : ℕ) (s token : Text) (result : List Text)
    → all is_alnum (c ∷ s) ≡ true
    → flatten (token_loop (c ∷ (s ++ b' ' ∷ [])) token result) ≡ (flatten result ++ token) ++ c ∷ s
unfolding step
token_loop-flatten c [] token result h =
    rw (token_loop_last c token result (ground arith), flatten_snoc) (simp append_assoc)
token_loop-flatten c (e ∷ s) token result h = elim (Bool-cases (ends_token c e)) [
  | inl d ↦
      rw
        (
          token_loop-alnum c (e ∷ (s ++ b' ' ∷ [])) token result (ground arith),
          d,
          step,
          token_loop-flatten e s [] (result ++ (token ++ c ∷ []) ∷ []) (ground arith),
          flatten_snoc,
        )
        (simp (append_assoc, append-nil))
  | inr d ↦
      rw
        (
          token_loop-alnum c (e ∷ (s ++ b' ' ∷ [])) token result (ground arith),
          d,
          step,
          token_loop-flatten e s (token ++ c ∷ []) result (ground arith),
        )
        (simp append_assoc)
]

-- Digits alone or letters alone.
abbrev pub IsUniform : Text → Type 0
IsUniform t = (all is_digit t ≡ true) ⊎ (all is_alpha t ≡ true)

-- The pending token is of the class of the byte that comes next.
abbrev Pending : ℕ → Text → Type 0
Pending c token =
    ((all is_digit token ≡ true) × (is_digit c ≡ true))
    ⊎ ((all is_alpha token ≡ true) × (is_alpha c ≡ true))

class_of_alnum : (c : ℕ) → is_alnum c ≡ true → Pending c []
class_of_alnum c h = ground arith

all_snoc :
    (p : ℕ → Bool) (t : Text) (c : ℕ) → all p t ≡ true → p c ≡ true → all p (t ++ c ∷ []) ≡ true
all_snoc p [] c h e = ground arith
all_snoc p (x ∷ t) c h e = ground (arith, all_snoc p t c)

Pending-whole : (c : ℕ) (token : Text) → Pending c token → IsUniform (token ++ c ∷ [])
Pending-whole c token (inl (h, e)) = inl (all_snoc is_digit token c h e)
Pending-whole c token (inr (h, e)) = inr (all_snoc is_alpha token c h e)

Pending-next :
    (c e : ℕ) (token : Text)
    → is_alnum e ≡ true
    → ends_token c e ≡ false
    → Pending c token
    → Pending e (token ++ c ∷ [])
unfolding ends_token
Pending-next c e token h d (inl (t, k)) = inl (all_snoc is_digit token c t k, ground arith)
Pending-next c e token h d (inr (t, k)) = inr (all_snoc is_alpha token c t k, ground arith)

token_loop-All :
    (c : ℕ) (s token : Text) (result : List Text)
    → all is_alnum (c ∷ s) ≡ true
    → Pending c token
    → All IsUniform result
    → All IsUniform (token_loop (c ∷ (s ++ b' ' ∷ [])) token result)
unfolding step
token_loop-All c [] token result h p r =
    rw (token_loop_last c token result (ground arith))
      (All-append IsUniform result _ r (Pending-whole c token p, tt))
token_loop-All c (e ∷ s) token result h p r = elim (Bool-cases (ends_token c e)) [
  | inl d ↦
      rw (token_loop-alnum c (e ∷ (s ++ b' ' ∷ [])) token result (ground arith), d)
        (token_loop-All e s [] _ (ground arith) (class_of_alnum e (ground arith))
          (All-append IsUniform result _ r (Pending-whole c token p, tt)))
  | inr d ↦
      rw (token_loop-alnum c (e ∷ (s ++ b' ' ∷ [])) token result (ground arith), d)
        (token_loop-All e s (token ++ c ∷ []) result (ground arith)
          (Pending-next c e token (ground arith) d p) r)
]

-- A text of letters and digits that is not empty is cut into tokens of digits alone or letters
-- alone, in order, and no byte is lost.
pub get_tokens_lem :
    (c : ℕ) (s : Text)
    → all is_alnum (c ∷ s) ≡ true
    → (flatten (get_tokens (c ∷ s)) ≡ c ∷ s) × All IsUniform (get_tokens (c ∷ s))
unfolding get_tokens flatten
get_tokens_lem c s h = (
  token_loop-flatten c s [] [] h,
  token_loop-All c s [] [] h (class_of_alnum c (ground arith)) tt,
)
