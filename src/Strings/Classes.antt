-- ===== src/Strings/Classes.antt =====
-- What the filters and the case conversions of src/cogs/core/strings.h return.
use reactaio.Prelude.{ℕ, ◌≡◌, refl, Bool, true, false, not, [], ◌∷◌, all, map, Text, arith}
use reactaio.Strings.{
  is_digit, is_alpha, is_alnum, is_space, lower, upper, keep, is_all_digit, remove_non_alphanumeric,
  remove_alpha, remove_numeric, to_lowercase, to_uppercase, title_from, to_titlecase,
}

keep-all : (p : ℕ → Bool) (s : Text) → all p (keep p s) ≡ true
unfolding keep
keep-all p [] = refl
keep-all p (c ∷ s) = ground (arith, keep-all p s)

keep-nil : (p : ℕ → Bool) (s : Text) → all (λ c. not (p c)) s ≡ true → keep p s ≡ []
unfolding keep
keep-nil p [] h = refl
keep-nil p (c ∷ s) h = ground (arith, keep-nil p s)

keep_self : (p : ℕ → Bool) (s : Text) → all p s ≡ true → keep p s ≡ s
unfolding keep
keep_self p [] h = refl
keep_self p (c ∷ s) h = ground (arith, keep_self p s)

-- Only letters and digits are left.
pub remove_non_alphanumeric-all : (s : Text) → all is_alnum (remove_non_alphanumeric s) ≡ true
unfolding remove_non_alphanumeric
remove_non_alphanumeric-all s = keep-all is_alnum s

pub all_mono :
    (p q : ℕ → Bool)
    → ((c : ℕ) → p c ≡ true → q c ≡ true)
    → (s : Text) → all p s ≡ true
    → all q s ≡ true
all_mono p q f [] h = refl
all_mono p q f (c ∷ s) h = ground (arith, f c, all_mono p q f s)

-- A text of digits has nothing left without its digits, and is left alone without its letters.
pub digits_alone :
    (s : Text) → is_all_digit s ≡ true → (remove_numeric s ≡ []) × (remove_alpha s ≡ s)
unfolding is_all_digit remove_numeric remove_alpha
digits_alone s h = (
  keep-nil (λ c. not (is_digit c)) s (all_mono is_digit _ (λ c d. ground arith) s h),
  keep_self (λ c. not (is_alpha c)) s (all_mono is_digit _ (λ c d. ground arith) s h),
)

pub letters_alone : (s : Text) → all is_alpha s ≡ true → remove_alpha s ≡ []
unfolding remove_alpha
letters_alone s h =
    keep-nil (λ c. not (is_alpha c)) s (all_mono is_alpha _ (λ c d. ground arith) s h)

-- To convert to lower case after a conversion to upper case is to convert to lower case at once.
pub lowercase-uppercase : (s : Text) → to_lowercase (to_uppercase s) ≡ to_lowercase s
unfolding to_lowercase to_uppercase
lowercase-uppercase [] = refl
lowercase-uppercase (c ∷ s) = ground (arith, lowercase-uppercase s)

-- Title case changes letter case alone, and after a non-space byte it writes a capital.
pub lowercase-titlecase : (s : Text) → to_lowercase (to_titlecase s) ≡ to_lowercase s
unfolding to_lowercase to_titlecase
lowercase-titlecase s = go true s
  where
    go : (b : Bool) (t : Text) → map lower (title_from b t) ≡ map lower t
    go b [] = refl
    go true (c ∷ t) = ground (arith, go (not (is_space (upper c))) t)
    go false (c ∷ t) = ground (arith, go (not (is_space (lower c))) t)
