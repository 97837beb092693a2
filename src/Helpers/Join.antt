-- ===== src/Helpers/Join.antt =====
-- What `join` and `join_with_limit` of src/cogs/core/helpers.h return.
use reactaio.Prelude.{
  ℕ, ◌≡◌, refl, List, [], ◌∷◌, ◌++◌, if◌then◌else◌, Text, null, append_assoc, append-nil,
}
use reactaio.Helpers.{join_loop, join}

-- The elements behind the first, each behind a separator.
pub separated : List Text → Text → Text
separated [] separator = []
separated (e ∷ es) separator = separator ++ (e ++ separated es separator)

-- The usual meaning of joining.
pub intercalate : List Text → Text → Text
unfolding separated
intercalate [] separator = []
intercalate (e ∷ es) separator = e ++ separated es separator

pub drop_empty : List Text → List Text
drop_empty [] = []
drop_empty (e ∷ es) = if null e then drop_empty es else e ∷ es

join_loop-separated :
    (es : List Text) (sep : Text) (c : ℕ) (result : Text)
    → join_loop es sep (c ∷ result) ≡ (c ∷ result) ++ separated es sep
unfolding join_loop separated
join_loop-separated [] sep c result = simp append-nil
join_loop-separated (e ∷ es) sep c result =
    simp (join_loop-separated es sep c (result ++ (sep ++ e)), append_assoc)

join_loop-intercalate :
    (es : List Text) (sep : Text) → join_loop es sep [] ≡ intercalate (drop_empty es) sep
unfolding join_loop intercalate drop_empty
join_loop-intercalate [] sep = refl
join_loop-intercalate ([] ∷ es) sep = join_loop-intercalate es sep
join_loop-intercalate ((c ∷ e) ∷ es) sep = join_loop-separated es sep c e

-- `join` puts the separator between the elements, but for empty elements at the front, which vanish
-- with their separators.
pub join-intercalate : (es : List Text) (sep : Text) → join es sep ≡ intercalate (drop_empty es) sep
unfolding join
join-intercalate [] sep = unfold intercalate drop_empty in refl
join-intercalate (e ∷ es) sep = join_loop-intercalate (e ∷ es) sep
