-- ===== src/Tests/Containers.antt =====
-- Unique vectors, the set operations and the two maps at concrete inputs.
use reactaio.Prelude.{ℕ, ◌≡◌, refl, true, false, List, [], ◌∷◌, Option, none, some, ◌==◌, arith}
use reactaio.Prelude.Eq.{nat_eq}
use reactaio.UniqueVector.{contains, insert}
use reactaio.UniqueVector.Insert.{IsSorted, Quiet}
use reactaio.Algorithm.{copy_if}
use reactaio.FifoMap.{FifoMap, of_list, empty}
use reactaio.FifoMap.Order.{Distinct, IsValid, mem}
use reactaio.UniqueVector.Refinement.{
  Op, insert_value, insert_values, erase_value, QuietOps, Implements, run, replay, run_refines,
}
use reactaio.FifoMap.Refinement
use reactaio.FifoMap.Refinement.{Reads, of_list_refines}
use reactaio.FixedMap
use reactaio.FixedMap.{lookup}
use reactaio.FixedMap.Shared.{subscript-contains}

abbrev same : ℕ → ℕ
same a = a

-- Behind the last element lies the number 9, or a page that faults.
abbrev nine : List ℕ → Option ℕ
nine xs = some 9

abbrev fault : List ℕ → Option ℕ
fault xs = none

Quiet-3 : Quiet same nine 3
Quiet-3 xs = (9, refl, ground arith)

Quiet-5 : Quiet same nine 5
Quiet-5 xs = (9, refl, ground arith)

abbrev some_numbers : List ℕ
some_numbers = 3 ∷ 5 ∷ []

some_numbers-IsSorted : IsSorted same some_numbers
some_numbers-IsSorted = ground arith

-- The number behind the end is the one to insert, and it is lost.
insert_lost : insert same nine 9 some_numbers ≡ some some_numbers
unfolding insert
insert_lost = refl

copied : copy_if same nine (5 ∷ 3 ∷ []) [] (λ x. x == 3) ≡ some (3 ∷ [])
unfolding copy_if insert
copied = refl

abbrev colours : FifoMap ℕ ℕ
colours = record { keys = 1 ∷ 2 ∷ []; values = 10 ∷ 20 ∷ [] }

colours-IsValid : IsValid colours
unfolding Distinct mem
colours-IsValid = record { paired = refl; distinct = (refl, (refl, tt)) }

abbrev first_array : List (ℕ × ℕ)
first_array = (1, 10) ∷ []

abbrev second_array : List (ℕ × ℕ)
second_array = (2, 20) ∷ []

not_there : lookup 2 first_array ≡ none
unfolding lookup
not_there = refl

subscript-contains_example :
    ((FixedMap.contains 2 first_array none).0 ≡ false)
    × ((FixedMap.contains 2 first_array (FixedMap.subscript 0 2 first_array none).1).0 ≡ true)
subscript-contains_example = subscript-contains 2 0 first_array not_there

abbrev some_ops : List (Op ℕ)
some_ops = insert_value 3 ∷ insert_values (5 ∷ 3 ∷ []) ∷ erase_value 3 ∷ []

abbrev some_ops-Quiet : QuietOps same nine some_ops
some_ops-Quiet = (Quiet-3, ((Quiet-5, (Quiet-3, tt)), (tt, tt)))

run_refines_example :
    Implements same (run same nine some_ops []) (replay same some_ops (contains same []))
run_refines_example = run_refines same nine some_ops [] some_ops-Quiet tt

some_pairs : List (ℕ × ℕ)
some_pairs = (1, 10) ∷ (2, 20) ∷ (1, 11) ∷ []

of_list_refines_example :
    IsValid (of_list some_pairs empty)
    × Reads (of_list some_pairs empty) (Refinement.replay some_pairs (λ _. none))
of_list_refines_example = of_list_refines some_pairs
