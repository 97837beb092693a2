-- ===== src/Moderation/Session/Acts.antt =====
-- What the requests of the commands do to the members and users of the guild.
use reactaio.Prelude.{
  ℕ, ◌≡◌, refl, ap, Bool, true, false, List, [], ◌∷◌, ◌++◌, Option, none, some, All, Option-cases,
  inl, inr, arith,
}
use reactaio.Moderation.World.{
  Request, edit_response, paginate, edit_text, paginate_texts, message_create, execute_webhook,
  error_webhook, direct_errors, direct_embeds, guild_member_kick, guild_ban_add, modcase_insert,
  modcase_insert_duration, command_insert,
}

-- Requests that only tell something.
abbrev pub is_report : Request → Bool
is_report (edit_response _ _) = true
is_report (paginate _ _) = true
is_report (edit_text _ _) = true
is_report (paginate_texts _ _) = true
is_report (message_create _) = true
is_report (execute_webhook _ _) = true
is_report (error_webhook _ _) = true
is_report (direct_errors _ _) = true
is_report (direct_embeds _ _ _) = true
is_report (command_insert _) = true
is_report _ = false

-- The ids that a test finds in the requests, in order.
unfoldable pub acts : (Request → Option ℕ) → List Request → List ℕ
acts target [] = []
acts target (r ∷ requests) = elim (target r) [
  | none ↦ acts target requests
  | some id ↦ id ∷ acts target requests
]

abbrev pub kick_target : Request → Option ℕ
kick_target (guild_member_kick id) = some id
kick_target _ = none

abbrev pub ban_target : Request → Option ℕ
ban_target (guild_ban_add id _) = some id
ban_target _ = none

abbrev pub case_target : Request → Option ℕ
case_target (modcase_insert _ _ user) = some user
case_target (modcase_insert_duration _ _ _ user) = some user
case_target _ = none

-- The users that the requests kick, that they ban, and that they put into the case log, in order.
unfoldable pub kicked : List Request → List ℕ
unfolding acts
kicked = acts kick_target

unfoldable pub banned : List Request → List ℕ
unfolding acts
banned = acts ban_target

unfoldable pub recorded : List Request → List ℕ
unfolding acts
recorded = acts case_target

pub acts-append :
    (target : Request → Option ℕ) (requests others : List Request)
    → acts target (requests ++ others) ≡ acts target requests ++ acts target others
unfolding acts
acts-append target [] others = refl
acts-append target (r ∷ requests) others = elim (Option-cases (target r)) [
  | inl e ↦ rw (acts, e) (acts-append target requests others)
  | inr (id, e) ↦ rw (acts, e) (ap (λ x. id ∷ x) (acts-append target requests others))
]

-- A test that finds nothing in a report.
abbrev pub IsSilent : (Request → Option ℕ) → Type 0
IsSilent target = (r : Request) → is_report r ≡ true → target r ≡ none

pub acts-reports :
    (target : Request → Option ℕ) (requests : List Request)
    → IsSilent target
    → All (λ r. is_report r ≡ true) requests
    → acts target requests ≡ []
unfolding acts
acts-reports target [] silent h = refl
acts-reports target (r ∷ requests) silent (h, hs) =
    rw (acts, silent r h) (acts-reports target requests silent hs)

pub kick_target-IsSilent : IsSilent kick_target
kick_target-IsSilent (guild_member_kick id) h = absurd (ground arith)
kick_target-IsSilent _ h = refl

pub ban_target-IsSilent : IsSilent ban_target
ban_target-IsSilent (guild_ban_add id _) h = absurd (ground arith)
ban_target-IsSilent _ h = refl

pub case_target-IsSilent : IsSilent case_target
case_target-IsSilent (modcase_insert _ _ _) h = absurd (ground arith)
case_target-IsSilent (modcase_insert_duration _ _ _ _) h = absurd (ground arith)
case_target-IsSilent _ h = refl
