-- ===== src/Strings.antt =====
-- src/cogs/core/strings.h over texts as lists of bytes. The character classes are those of the C
-- locale; bytes above 127 are in no class.
pub mod Classes
pub mod Replace
pub mod Split
use reactaio.Prelude.{
  ℕ, zero, suc, ◌+◌, ◌-◌, Bool, true, false, not, ◌&&◌, ◌||◌, List, [], ◌∷◌, ◌++◌, Option, none,
  some, ltb, leb, ◌==◌, if◌then◌else◌, length, all, map, Text, null,
}

abbrev pub is_digit : ℕ → Bool
is_digit c = leb b'0' c && leb c b'9'

abbrev pub is_upper : ℕ → Bool
is_upper c = leb b'A' c && leb c b'Z'

abbrev pub is_lower : ℕ → Bool
is_lower c = leb b'a' c && leb c b'z'

abbrev pub is_alpha : ℕ → Bool
is_alpha c = is_upper c || is_lower c

abbrev pub is_alnum : ℕ → Bool
is_alnum c = is_alpha c || is_digit c

abbrev pub is_space : ℕ → Bool
is_space c = c == b' ' || (leb 9 c && leb c 13)

abbrev pub lower : ℕ → ℕ
lower c = if is_upper c then c + 32 else c

abbrev pub upper : ℕ → ℕ
upper c = if is_lower c then c - 32 else c

-- `std::ranges::copy_if` into a new string, and `remove_copy_if` with the test turned round.
unfoldable pub keep : (ℕ → Bool) → Text → Text
keep p [] = []
keep p (c ∷ s) = let rest = keep p s in if p c then c ∷ rest else rest

unfoldable pub is_all_digit : Text → Bool
is_all_digit s = all is_digit s

unfoldable pub remove_non_alphanumeric : Text → Text
remove_non_alphanumeric s = keep is_alnum s

unfoldable pub remove_alpha : Text → Text
remove_alpha s = keep (λ c. not (is_alpha c)) s

unfoldable pub remove_numeric : Text → Text
remove_numeric s = keep (λ c. not (is_digit c)) s

-- `std::views::split` by a delimiter of one byte.
pub split_at : ℕ → Text → Text → List Text
split_at d [] word = word ∷ []
split_at d (c ∷ s) word = elim (c == d) [
  | true ↦ word ∷ split_at d s []
  | false ↦ split_at d s (word ++ c ∷ [])
]

-- An empty range has no parts; any other text has one more than it has delimiters.
unfoldable pub split : Text → ℕ → List Text
unfolding split_at
split [] d = []
split (c ∷ s) d = split_at d (c ∷ s) []

unfoldable pub to_lowercase : Text → Text
to_lowercase s = map lower s

unfoldable pub to_uppercase : Text → Text
to_uppercase s = map upper s

title_from : Bool → Text → Text
title_from word_start [] = []
title_from word_start (c ∷ s) =
    let character = if word_start then upper c else lower c in
    character ∷ title_from (not (is_space character)) s

unfoldable pub to_titlecase : Text → Text
unfolding title_from
to_titlecase s = title_from true s

abbrev pub starts_with : Text → Text → Bool
starts_with [] s = true
starts_with (c ∷ p) [] = false
starts_with (c ∷ p) (d ∷ s) = c == d && starts_with p s

-- `string.find(find, pos)`: the place of the first match in the text from `pos` on.
pub search : Text → Text → Option ℕ
search find [] = if null find then some 0 else none
search find (c ∷ s) =
    let later = search find s in
    if starts_with find (c ∷ s) then some 0 else elim later [ none ↦ none | some i ↦ some (suc i) ]

abbrev pub take : ℕ → Text → Text
take zero s = []
take (suc n) [] = []
take (suc n) (c ∷ s) = c ∷ take n s

abbrev pub drop : ℕ → Text → Text
drop zero s = s
drop (suc n) [] = []
drop (suc n) (c ∷ s) = drop n s

-- The loop of `replace_all`: `front` is the text before `pos`, `rest` the text from `pos` on.
pub replace_loop : ℕ → Text → Text → Text → Text → Text
replace_loop zero find replace front rest = front ++ rest
replace_loop (suc fuel) find replace front rest = elim (search find rest) [
  | none ↦ front ++ rest
  | some i ↦
      replace_loop fuel find replace (front ++ (take i rest ++ replace))
        (drop (i + length find) rest)
]

unfoldable pub replace_all : Text → Text → Text → Text
unfolding replace_loop search
replace_all string find replace =
    if null find || null string
    then string
    else replace_loop (suc (length string)) find replace [] string

-- Equality of two texts.
abbrev pub text_eq : Text → Text → Bool
text_eq [] [] = true
text_eq [] (d ∷ t) = false
text_eq (c ∷ s) [] = false
text_eq (c ∷ s) (d ∷ t) = c == d && text_eq s t
