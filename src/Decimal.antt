-- ===== src/Decimal.antt =====
-- The conversions between numbers and texts that the source takes from the standard library:
-- `std::to_string` and `std::stoull` on 64-bit unsigned numbers.
pub mod RoundTrip
use reactaio.Prelude.{
  ℕ, zero, suc, ◌+◌, ◌-◌, ◌*◌, ◌/◌, ◌%◌, ◌^◌, Bool, true, false, [], ◌∷◌, ltb, ◌==◌, if◌then◌else◌,
  Text,
}
use reactaio.Prelude.Result.{Result, ok, throw, Exception, out_of_range, invalid_argument}
use reactaio.Strings.{is_digit, is_space}

abbrev pub u64 : ℕ
u64 = 2 ^ 64

-- The digits of `n` in front of `out`; twenty digits are enough for 64 bits.
unfoldable pub digits : ℕ → ℕ → Text → Text
digits zero n out = out
digits (suc fuel) n out =
    let rest = digits fuel (n / 10) ((b'0' + n % 10) ∷ out) in
    if ltb n 10 then (b'0' + n) ∷ out else rest

unfoldable pub to_string : ℕ → Text
unfolding digits
to_string n = digits 20 n []

-- The value of the digits in front, and the first byte that is none ends the number.
unfoldable pub prefix_value : ℕ → Text → ℕ
prefix_value acc [] = acc
prefix_value acc (c ∷ s) =
    let rest = prefix_value (acc * 10 + (c - b'0')) s in if is_digit c then rest else acc

unfoldable pub skip_space : Text → Text
skip_space [] = []
skip_space (c ∷ s) = let rest = skip_space s in if is_space c then rest else c ∷ s

-- A sign turns the number round modulo 2 ^ 64.
unfoldable pub magnitude : Bool → Text → Result ℕ
unfolding prefix_value
magnitude minus [] = throw invalid_argument
magnitude minus (c ∷ s) =
    let n = prefix_value 0 (c ∷ s) in
    if is_digit c
    then if ltb n u64 then ok (if minus then (u64 - n) % u64 else n) else throw out_of_range
    else throw invalid_argument

unfoldable pub signed : Text → Result ℕ
unfolding magnitude
signed [] = throw invalid_argument
signed (c ∷ s) =
    if c == b'-'
    then magnitude true s
    else if c == b'+'
    then magnitude false s
    else magnitude false (c ∷ s)

unfoldable pub stoull : Text → Result ℕ
unfolding signed skip_space
stoull s = signed (skip_space s)
