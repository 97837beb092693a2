-- ===== src/Tests/Texts.antt =====
-- Strings, helpers and durations at concrete inputs.
use reactaio.Helpers.Search.{find_index_all}
use reactaio.Prelude.{
  ℕ, ◌≡◌, refl, true, List, [], ◌∷◌, some, arith, All, all, Text, codes, if◌then◌else◌, null, some,
}
use mathlib.Core.List.{flatten}
use reactaio.Prelude.Result.{throw, invalid_argument}
use reactaio.Strings.{replace_all, is_alnum}
use reactaio.Strings.Replace.{scrub, replace_all-scrub}
use reactaio.Helpers.{join_with_limit}
use reactaio.Helpers.Search.Ends.{Complete, find_index_all_ends}
use reactaio.Helpers.Limit.{lines, join_with_limit-lines, Fits, join_with_limit-Fits}
use reactaio.Duration.{Duration, of_string, show}
use reactaio.Duration.Stored.{of_string-show}

replace_all-scrub_example : replace_all (codes "aaab") (codes "aa") (codes "aaa") ≡ (
    if null (codes "aa") then codes "aaab" else scrub (codes "aa") (codes "aaa") 0 (codes "aaab"))
replace_all-scrub_example = replace_all-scrub (codes "aaab") (codes "aa") (codes "aaa")

find_index_all_ends_example :
    (positions : List ℕ) × (find_index_all 6 (codes "abcab") (codes "ab") ≡ some positions)
    × Complete (codes "abcab") (codes "ab") 0 positions
find_index_all_ends_example = find_index_all_ends 6 (codes "abcab") (codes "ab") refl (omega arith)

abbrev words : List Text
words = [] ∷ codes "ab" ∷ codes "c" ∷ []

join_with_limit-lines_example : flatten (join_with_limit words 2) ≡ lines 2 words
join_with_limit-lines_example = join_with_limit-lines words 2

join_with_limit-Fits_example : All (Fits 2) (join_with_limit words 2)
join_with_limit-Fits_example = join_with_limit-Fits words 2

spoken : all is_alnum (codes "2h5m") ≡ true
spoken = refl

abbrev two_hours : Duration
two_hours = record { values = 0 ∷ 0 ∷ 0 ∷ 0 ∷ 2 ∷ 0 ∷ 0 ∷ [] }

of_string-show_example : of_string (show true two_hours) ≡ throw invalid_argument
of_string-show_example = of_string-show true two_hours refl (ground arith) refl

-- The positions of the example.
find_index_all_abcab : find_index_all 6 (codes "abcab") (codes "ab") ≡ some (0 ∷ 3 ∷ [])
unfolding find_index_all
find_index_all_abcab = refl
