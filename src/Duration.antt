-- ===== src/Duration.antt =====
-- src/cogs/core/discord/duration.h, and `parse_human_time` of src/cogs/core/helpers.cpp.
pub mod Stored
pub mod Human
use reactaio.Prelude.{
  ℕ, zero, suc, ◌+◌, ◌-◌, ◌*◌, ◌%◌, Bool, true, false, not, ◌&&◌, ◌||◌, List, [], ◌∷◌, ◌++◌, Option,
  none, some, ltb, ◌==◌, if◌then◌else◌, length, get_elem?, set, Text, codes, null,
}
use reactaio.Prelude.Result.{Result, ok, throw, out_of_range, ◌>>=◌}
use reactaio.Strings.{
  is_all_digit, remove_alpha, remove_numeric, remove_non_alphanumeric, split, text_eq,
}
use reactaio.Decimal.{u64, to_string, stoull}
use reactaio.Helpers.{get_tokens}

-- A row of `units`: the length in seconds, and the names, the shortest first.
pub record TimeUnit : Type 0 where
  pub length_seconds : ℕ
  pub names : List Text

time_unit : ℕ → List Text → TimeUnit
time_unit n names = record { length_seconds = n; names = names }

-- The lengths of the units of `std::chrono`; a year is 146097 / 400 days.
unfoldable pub units : List TimeUnit
unfolding time_unit
units =
    time_unit 31556952 (codes "y" ∷ codes "yr" ∷ codes "yrs" ∷ codes "year" ∷ codes "years" ∷ [])
    ∷ time_unit 2629746 (codes "mo" ∷ codes "mos" ∷ codes "month" ∷ codes "months" ∷ [])
    ∷ time_unit 604800 (codes "w" ∷ codes "wk" ∷ codes "wks" ∷ codes "week" ∷ codes "weeks" ∷ [])
    ∷ time_unit 86400 (codes "d" ∷ codes "day" ∷ codes "days" ∷ [])
    ∷ time_unit 3600 (codes "h" ∷ codes "hr" ∷ codes "hrs" ∷ codes "hour" ∷ codes "hours" ∷ [])
    ∷ time_unit 60 (codes "m" ∷ codes "min" ∷ codes "mins" ∷ codes "minute" ∷ codes "minutes" ∷ [])
    ∷ time_unit 1 (codes "s" ∷ codes "sec" ∷ codes "secs" ∷ codes "second" ∷ codes "seconds" ∷ [])
    ∷ []

-- Years, months, weeks, days, hours, minutes and seconds, each a 64-bit number.
pub record Duration : Type 0 where
  pub values : List ℕ

unfoldable pub no_time : Duration
no_time = record { values = 0 ∷ 0 ∷ 0 ∷ 0 ∷ 0 ∷ 0 ∷ 0 ∷ [] }

-- `vector::at`
abbrev pub at {ℓ} : {A : Type ℓ} → List A → ℕ → Result A
at xs i = elim (get_elem? xs i) [ none ↦ throw out_of_range | some x ↦ ok x ]

unfoldable pub sum_seconds : List ℕ → List TimeUnit → ℕ
sum_seconds [] us = 0
sum_seconds (v ∷ vs) [] = 0
sum_seconds (v ∷ vs) (u ∷ us) = v * u.length_seconds + sum_seconds vs us

-- The sum is taken in 64 bits.
unfoldable pub to_seconds : Duration → ℕ
unfolding sum_seconds units
to_seconds d = sum_seconds d.values units % u64

-- `names.front()` and `names.back()` of a row; no row is empty.
pub first_name : List Text → Text
first_name [] = []
first_name (n ∷ ns) = n

pub last_name : List Text → Text
last_name [] = []
last_name (n ∷ []) = n
last_name (n ∷ m ∷ ns) = last_name (m ∷ ns)

pub unit_name : Bool → List Text → Text
unfolding first_name last_name
unit_name shortened names = if shortened then first_name names else last_name names

-- The loop of `duration::to_string`: `res` is the text so far.
pub show_loop : Bool → List ℕ → List TimeUnit → Text → Text
unfolding unit_name
show_loop shortened [] us res = res
show_loop shortened (v ∷ vs) [] res = res
show_loop shortened (v ∷ vs) (u ∷ us) res =
    let spaced = if null res then res else res ++ b' ' ∷ [] in
    show_loop shortened vs us
      (if v == 0 then res else spaced ++ (to_string v ++ b' ' ∷ unit_name shortened u.names))

pub show : Bool → Duration → Text
unfolding show_loop
show shortened d = show_loop shortened d.values units []

-- `find_if` over the units, from place `i` on.
pub find_unit : Text → List TimeUnit → ℕ → Option ℕ
unfolding first_name last_name
find_unit ending [] i = none
find_unit ending (u ∷ us) i =
    let later = find_unit ending us (suc i) in
    if text_eq (first_name u.names) ending || text_eq (last_name u.names) ending
    then some i
    else later

-- One round of the constructor that reads the text of the database.
pub read_token : Text → Duration → Result Duration
unfolding find_unit units
read_token token d = do
  number ← stoull (remove_alpha token)
  elim (find_unit (remove_numeric token) units 0) [
    | none ↦ ok d
    | some index ↦ ok (record { values = set d.values index number })
  ]

pub read_tokens : List Text → Duration → Result Duration
unfolding read_token
read_tokens [] d = ok d
read_tokens (token ∷ tokens) d = read_token token d >>= λ d'. read_tokens tokens d'

-- The constructor `duration(duration_string)`.
pub of_string : Text → Result Duration
unfolding read_tokens
of_string duration_string = read_tokens (split duration_string b' ') no_time

pub contains_name : List Text → Text → Bool
contains_name [] unit = false
contains_name (n ∷ ns) unit = text_eq n unit || contains_name ns unit

-- The inner loop of `parse_human_time`: each unit with that name grows by `number`.
pub add_units : List ℕ → List TimeUnit → Text → ℕ → List ℕ
unfolding contains_name
add_units [] us unit number = []
add_units (v ∷ vs) [] unit number = v ∷ vs
add_units (v ∷ vs) (u ∷ us) unit number =
    (if contains_name u.names unit then (v + number) % u64 else v) ∷ add_units vs us unit number

-- The outer loop of `parse_human_time`, with the rounds that are left.
pub human_loop : ℕ → ℕ → List Text → Duration → Result (Option Duration)
unfolding add_units units
human_loop zero i tokens res = ok (some res)
human_loop (suc rounds) i tokens res = at tokens (2 * i) >>= λ word. elim (is_all_digit word) [
  | false ↦ ok none
  | true ↦ at tokens (2 * i + 1) >>= λ unit. elim (is_all_digit unit) [
    | true ↦ ok none
    | false ↦ stoull word >>= λ number.
        human_loop rounds (i + 1) tokens
          (record { values = add_units res.values units unit number })
  ]
]

unfoldable pub parse_human_time : Text → Result (Option Duration)
unfolding human_loop
parse_human_time string =
    let tokens = get_tokens (remove_non_alphanumeric string) in
    if length tokens % 2 == 0 then ok none else human_loop (length tokens) 0 tokens no_time
