-- ===== src/Duration/Human.antt =====
-- What `parse_human_time` of src/cogs/core/helpers.cpp returns.
use native.Mathlib.Decide.{dec_lt}
use reactaio.Prelude.{
  ◌/◌, ℕ, zero, suc, ◌+◌, ◌*◌, ◌%◌, ◌≤◌, ◌≡◌, ◌≢◌, refl, List, [], ◌∷◌, none, some, ◌==◌, length,
  get_elem?, Text, arith, Bool-cases, inl, inr,
}
use reactaio.Prelude.Result.{ok}
use reactaio.Strings.{remove_non_alphanumeric}
use reactaio.Helpers.{get_tokens}
use reactaio.Duration.{Duration, no_time, human_loop, parse_human_time}

get_elem?-none {ℓ} : {A : Type ℓ} (xs : List A) (i : ℕ) → length xs ≤ i → get_elem? xs i ≡ none
get_elem?-none [] i h = refl
get_elem?-none (x ∷ xs) zero h = absurd (omega arith)
get_elem?-none (x ∷ xs) (suc i) h = get_elem?-none xs i (omega arith)

-- With an odd number of tokens the last word or number has no partner, so no round is the last one.
human_loop-ne-some :
    (rounds i k : ℕ) (tokens : List Text) (res d : Duration)
    → length tokens ≡ 2 * k + 1
    → i ≤ k
    → length tokens ≤ rounds + i
    → human_loop rounds i tokens res ≢ ok (some d)
unfolding human_loop
human_loop-ne-some zero i k tokens res d odd h enough = absurd (omega arith)
human_loop-ne-some (suc rounds) i k tokens res d odd h enough = elim (dec_lt i k) [
  | yes lt ↦ grind (
    arith,
    λ (r : Duration).
        human_loop-ne-some rounds (i + 1) k tokens r d odd (omega arith) (omega arith),
  )
  | no ge ↦ grind (arith, get_elem?-none tokens (2 * i + 1) (omega arith))
]

-- `parse_human_time` hands out no duration, for any text: an even number of tokens is refused, and
-- with an odd number the last one is asked for a partner that is not there.
pub parse_human_time-ne-some : (s : Text) (d : Duration) → parse_human_time s ≢ ok (some d)
unfolding parse_human_time
parse_human_time-ne-some s d =
    elim (Bool-cases (length (get_tokens (remove_non_alphanumeric s)) % 2 == 0)) [
      | inl e ↦ rw (e, parse_human_time) (λ h. cc)
      | inr e ↦
          rw (e, parse_human_time)
            (human_loop-ne-some _ 0 (length (get_tokens (remove_non_alphanumeric s)) / 2) _ no_time
              d (ground arith) (omega arith) (omega arith))
    ]
