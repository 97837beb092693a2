-- ===== src/Decimal/RoundTrip.antt =====
-- `std::stoull` reads back what `std::to_string` prints.
use native.Mathlib.Nat.{pow-suc}
use reactaio.Prelude.{
  ℕ, zero, suc, ◌+◌, ◌/◌, ◌%◌, ◌^◌, ◌<◌, ◌≡◌, ◌≢◌, refl, true, [], ◌∷◌, Text, all, arith,
}
use reactaio.Prelude.Result.{ok}
use reactaio.Strings.{is_digit, is_all_digit}
use reactaio.Decimal.{u64, digits, to_string, prefix_value, stoull}

prefix_value-digits :
    (f n : ℕ) (out : Text) → n < 10 ^ f → prefix_value 0 (digits f n out) ≡ prefix_value n out
unfolding digits prefix_value
prefix_value-digits zero n out h = let e : n ≡ 0 = omega arith in rw e
prefix_value-digits (suc f) n out h =
    ground (arith, pow-suc 10 f, prefix_value-digits f (n / 10) ((b'0' + n % 10) ∷ out))

digits-all : (f n : ℕ) (out : Text) → all is_digit out ≡ true → all is_digit (digits f n out) ≡ true
unfolding digits
digits-all zero n out h = h
digits-all (suc f) n out h = ground (arith, digits-all f (n / 10) ((b'0' + n % 10) ∷ out))

digits_head : (f n : ℕ) (out : Text) → out ≢ [] → digits f n out ≢ []
unfolding digits
digits_head zero n out h = h
digits_head (suc f) n out h = ground (arith, digits_head f (n / 10) ((b'0' + n % 10) ∷ out))

pub to_string-ne-nil : (n : ℕ) → to_string n ≢ []
unfolding to_string
to_string-ne-nil n = ground (arith, digits_head 19 (n / 10) ((b'0' + n % 10) ∷ []))

-- A printed number is digits alone.
pub to_string-all : (n : ℕ) → is_all_digit (to_string n) ≡ true
unfolding to_string is_all_digit
to_string-all n = digits-all 20 n [] refl

-- Of a text that begins with digits `stoull` reads these.
stoull-digits :
    (s : Text)
    → s ≢ []
    → is_all_digit s ≡ true
    → prefix_value 0 s < u64
    → stoull s ≡ ok (prefix_value 0 s)
unfolding stoull is_all_digit
stoull-digits [] h d b = absurd (h refl)
stoull-digits (c ∷ s) h d b = ground arith

prefix_value-to_string : (n : ℕ) → n < u64 → prefix_value 0 (to_string n) ≡ n
unfolding to_string prefix_value
prefix_value-to_string n h = prefix_value-digits 20 n [] (omega arith)

-- Every 64-bit number is read back from its print.
pub stoull-to_string : (n : ℕ) → n < u64 → stoull (to_string n) ≡ ok n
stoull-to_string n h = rw (
  stoull-digits (to_string n) (to_string-ne-nil n) (to_string-all n)
      (rw (prefix_value-to_string n h) h),
  prefix_value-to_string n h,
)
