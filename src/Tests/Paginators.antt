-- ===== src/Tests/Paginators.antt =====
-- Paginators at concrete inputs.
use reactaio.Prelude.{
  ℕ, ◌≡◌, ◌+◌, ◌-◌, refl, true, [], ◌∷◌, some, ◌==◌, arith, length, Text, codes, if◌then◌else◌,
}
use reactaio.Prelude.Result.{ok}
use reactaio.Paginator.{
  Paginator, Message, of_embeds, size, forward, backward, skip_last, skip_first, remove_page,
}
use reactaio.Paginator.Pages.{IsValid, MovesTo, moves_lem, clicks, clicks-IsValid}
use reactaio.Paginator.Lifetime.{remove_page_lem}

abbrev message : Message ℕ
message = record { content = []; embeds = 1 ∷ 2 ∷ 3 ∷ []; buttons = [] }

abbrev owner : Text
owner = codes "1_2_3"

abbrev three : Paginator ℕ
three = of_embeds message owner true

abbrev at_last : Paginator ℕ
at_last = record three { current_page = 2 }

three-IsValid : IsValid three
unfolding of_embeds size
three-IsValid = record { current = ground arith; fits = ground arith }

moves_lem_example :
    MovesTo
      (if three.current_page + 1 == size three then 0 else three.current_page + 1)
      three
      (forward three)
    × MovesTo
        (if three.current_page == 0 then size three - 1 else three.current_page - 1)
        three
        (backward three)
    × MovesTo (size three - 1) three (skip_last three)
    × MovesTo 0 three (skip_first three)
moves_lem_example = moves_lem three three-IsValid

clicks-IsValid_example :
    (q : Paginator ℕ) × (clicks (codes "1_2_3_forward" ∷ codes "1_2_3_skip_last" ∷ []) three
      ≡ some q)
    × IsValid q
clicks-IsValid_example =
    clicks-IsValid (codes "1_2_3_forward" ∷ codes "1_2_3_skip_last" ∷ []) three three-IsValid

abbrev two_left : Paginator ℕ
two_left = record at_last { pages = 2 ∷ 3 ∷ [] }

abbrev one_left : Paginator ℕ
one_left = record at_last { pages = 3 ∷ [] }

removed_once : remove_page 0 at_last ≡ some (ok two_left)
unfolding remove_page of_embeds
removed_once = refl

removed_twice : remove_page 0 two_left ≡ some (ok one_left)
unfolding remove_page of_embeds
removed_twice = refl

last_shown : at_last.current_page + 1 ≡ size at_last
unfolding size of_embeds
last_shown = refl

has_embeds : at_last.use_embeds ≡ true
unfolding of_embeds
has_embeds = refl

remove_page_lem_example :
    (length two_left.pages + 1 ≡ length at_last.pages)
    × (two_left.current_page ≡ at_last.current_page)
    × (two_left.use_embeds ≡ at_last.use_embeds)
remove_page_lem_example = remove_page_lem 0 at_last removed_once
