-- ===== src/Moderation/Kick/Cases.antt =====
-- The rows of the case log that the callbacks of kick_wrapper.cpp leave in the database.
use reactaio.Prelude.{
  ℕ, zero, suc, ◌≡◌, refl, ap, ◌∙◌, List, [], ◌∷◌, ◌++◌, Option, none, some, Text,
}
use reactaio.Moderation.World.{World, Member, Request, Session, succeeded}
use reactaio.Moderation.Roles.{◌>>=◌}
use reactaio.Duration.{Duration}
use reactaio.Moderation.Session.{insert_cases}
use reactaio.Moderation.Session.Acts.{recorded, acts, acts-append, case_target}
use reactaio.Moderation.Kick.{lambda_callback}

pub recorded-insert_cases :
    (requests : List Request) (duration : Option Duration) (id : ℕ) (name : Text) (users : List ℕ)
    → recorded (requests ++ insert_cases duration id name users) ≡ recorded requests ++ users
unfolding recorded acts insert_cases
recorded-insert_cases requests duration id name users =
    acts-append case_target requests (insert_cases duration id name users)
    ∙ ap (λ x. recorded requests ++ x) (each duration users)
  where
    each :
        (duration : Option Duration) (users : List ℕ)
        → recorded (insert_cases duration id name users) ≡ users
    each none [] = refl
    each (some d) [] = refl
    each none (user ∷ users) = ap (λ x. user ∷ x) (each none users)
    each (some d) (user ∷ users) = ap (λ x. user ∷ x) (each (some d) users)

-- The list, so many times.
unfoldable pub times : ℕ → List ℕ → List ℕ
times zero xs = []
times (suc n) xs = xs ++ times n xs

module _ (w : World) (m : Member) where
  -- So many kicks end well, one after the other.
  unfoldable pub successes : ℕ → Session → Option Session
  successes zero s = some s
  successes (suc n) s = lambda_callback w succeeded m s >>= λ s'. successes n s'
