-- ===== src/Helpers.antt =====
-- The text helpers of src/cogs/core/helpers.h and src/cogs/core/helpers.cpp.
pub mod Join
pub mod Limit
pub mod Tokens
pub mod Search
use reactaio.Prelude.{
  ℕ, zero, suc, ◌+◌, ◌-◌, ◌%◌, Bool, true, false, not, ◌&&◌, ◌||◌, List, [], ◌∷◌, ◌++◌, leb, ◌==◌,
  if◌then◌else◌, length, Text, codes, null,
}
use reactaio.Strings.{is_digit, is_alpha, is_alnum, is_space}
use reactaio.Decimal.{to_string}

unfoldable pub suffix : ℕ → Text
suffix number =
    let last_digit = number % 10 in
    let last_two_digits = number % 100 in
    if last_digit == 1 && not (last_two_digits == 11)
    then codes "st"
    else if last_digit == 2 && not (last_two_digits == 12)
    then codes "nd"
    else if last_digit == 3 && not (last_two_digits == 13)
    then codes "rd"
    else codes "th"

unfoldable pub ordinal : ℕ → Text
unfolding suffix
ordinal number = to_string number ++ suffix number

-- The loop of `join`: `result` is the text so far.
unfoldable pub join_loop : List Text → Text → Text → Text
join_loop [] separator result = result
join_loop (element ∷ vector) separator result =
    join_loop vector separator
      (if null result then result ++ element else result ++ (separator ++ element))

unfoldable pub join : List Text → Text → Text
unfolding join_loop
join [] separator = []
join (element ∷ vector) separator = join_loop (element ∷ vector) separator []

-- The variables of the loop of `join_with_limit`.
pub record Chunks : Type 0 where
  pub result : List Text
  pub current_size : ℕ
  pub to_send : Text

-- `result`, `current_size` and `to_send` as they begin.
abbrev pub no_chunks : Chunks
no_chunks = record { result = []; current_size = 0; to_send = [] }

abbrev pub newline : ℕ
newline = 10

-- The first `if` of the round; a string over the limit is in neither branch. `sizeof('\n')` is 1.
unfoldable pub add_string : ℕ → Text → Chunks → Chunks
add_string limit string c =
    if leb (length string + c.current_size + 1) limit
    then record c {
      to_send = c.to_send ++ (string ++ newline ∷ []);
      current_size = c.current_size + length string;
    }
    else if leb (length string) limit
    then record {
      result = c.result ++ c.to_send ∷ [];
      current_size = length string;
      to_send = string ++ newline ∷ [];
    }
    else c

unfoldable pub join_limit_loop : ℕ → List Text → Chunks → Chunks
unfolding add_string
join_limit_loop limit [] c = c
join_limit_loop limit (string ∷ vector) c =
    let c' = add_string limit string c in
    join_limit_loop limit vector
      (if null vector then record c' { result = c'.result ++ c'.to_send ∷ [] } else c')

unfoldable pub join_with_limit : List Text → ℕ → List Text
unfolding join_limit_loop
join_with_limit vector limit = (join_limit_loop limit vector no_chunks).result

-- Between `c` and the next byte a token ends: a word or number before a space, or a change of class.
unfoldable pub ends_token : ℕ → ℕ → Bool
ends_token c next =
    (is_alnum c && is_space next) || (is_digit c && is_alpha next) || (is_alpha c && is_digit next)

-- Behind `c` the next token begins.
unfoldable pub begins_token : ℕ → ℕ → Bool
begins_token c next =
    (is_space c && is_alnum next) || (is_alpha c && is_digit next) || (is_digit c && is_alpha next)

-- `str[i + 1]`; behind the last byte a `std::string` has a zero.
abbrev pub peek : Text → ℕ
peek [] = 0
peek (c ∷ s) = c

-- The loop of `get_tokens`: `token` is the text from `start` up to the byte `i`, so that
-- `start = i + 1` makes it empty.
unfoldable pub token_loop : Text → Text → List Text → List Text
unfolding ends_token begins_token
token_loop [] token result = result
token_loop (c ∷ s) token result =
    let whole = token ++ c ∷ [] in
    let ends = ends_token c (peek s) in
    let kept = if ends || begins_token c (peek s) then [] else whole in
    token_loop s kept (if ends then result ++ whole ∷ [] else result)

unfoldable pub get_tokens : Text → List Text
unfolding token_loop
get_tokens string = token_loop (string ++ b' ' ∷ []) [] []
