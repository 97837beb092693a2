-- ===== src/Moderation/Bans/Wrapper.antt =====
-- How the bans of src/cogs/moderation/wrappers end, by what their checks and their requests do.
use reactaio.Prelude.{
  ℕ, ◌≡◌, ◌⊎◌, refl, sym, ap, ◌∙◌, Bool, true, false, List, [], ◌++◌, Option, some, map, Text,
  Bool-cases, inl, inr, if-true, if-false, if-none, option_inj, if◌then◌else◌,
}
use reactaio.Moderation.World.{World, Command, Session, Request}
use reactaio.Moderation.Checks.Allowed.{>>=-eq-some}
use reactaio.Moderation.Session.Acts.{acts, IsSilent}
use reactaio.Moderation.Session.Reports.{Reports-acts}
use reactaio.Moderation.Hybrid.{Hybrid, collect, report_invalid}
use reactaio.Moderation.Hybrid.Collected.{collect-Kept}
use reactaio.Moderation.Bans.{run_checked, wrapper}
use reactaio.Moderation.Bans.Safety.{ReportsBase, report_invalid-ReportsBase}

module _ (w : World) (c : Command) (asks_itself : Bool) (invalid_title : Text)
    (check : List ℕ → Session → Option Session) (process respond : Hybrid → Option Hybrid)
    (target : Request → Option ℕ) (Granted : Session → Type 0) (Ready : Hybrid → Type 0)
    (asked : Hybrid → List ℕ) where
  -- Checks that only report, and leave the session alone where they grant.
  abbrev pub SoundCheck : Type 0
  SoundCheck =
      (users : List ℕ) (s s' : Session)
      → check users s ≡ some s'
      → (acts target s'.requests ≡ acts target s.requests)
        × (s'.cancel_operation ≡ false → (s' ≡ s) × Granted s)

  -- Requests for exactly the users that are asked for.
  abbrev pub SoundProcess : Type 0
  SoundProcess =
      (h h' : Hybrid)
      → Ready h
      → process h ≡ some h'
      → acts target h'.base.requests ≡ acts target h.base.requests ++ asked h

  -- Answers that only report.
  abbrev pub SoundRespond : Type 0
  SoundRespond = (h h' : Hybrid) → respond h ≡ some h' → ReportsBase h h'

  -- The ways in which a ban ends, by what its snowflakes are collected into.
  abbrev pub Ended : Hybrid → Bool → Hybrid → Type 0
  Ended h1 invalid h' =
      ((acts target h'.base.requests ≡ []) × ((invalid ≡ true) ⊎ (h'.base.cancel_operation ≡ true)))
      ⊎ ((invalid ≡ false) × Granted h1.base × (acts target h'.base.requests ≡ asked h1))

  run_checked-Ended :
      (h1 h' : Hybrid)
      → SoundCheck
      → SoundProcess
      → SoundRespond
      → IsSilent target
      → acts target h1.base.requests ≡ []
      → Ready h1
      → run_checked w c asks_itself invalid_title check process respond h1 ≡ some h'
      → Ended h1 false h'
  unfolding run_checked
  run_checked-Ended h1 h' sound exact quiet silent n ready e =
      let (s, run, e1) = >>=-eq-some (check (map (λ u. u.address) h1.users) h1.base) _ e in
      let h2 : Hybrid = record h1 { base = s } in
      let (kept, go_on) = sound (map (λ u. u.address) h1.users) h1.base s run in
      elim (Bool-cases s.cancel_operation) [
        | inl i ↦
            let same = option_inj (if-true s.cancel_operation _ _ i e1) in
            inl (
              ap (λ x. acts target x.base.requests) (sym same) ∙ (kept ∙ n),
              inr (ap (λ x. x.base.cancel_operation) (sym same) ∙ i),
            )
        | inr i ↦
            let (same, granted) = go_on i in
            let back : h1 ≡ h2 = ap (λ x. record h1 { base = x }) (sym same) in
            let (h3, runs, e2) =
              >>=-eq-some (process h2) _ (if-false s.cancel_operation _ _ i e1) in
            inr (
              refl,
              granted,
              Reports-acts target h3.base h'.base silent (quiet h3 h' e2)
                  ∙ (exact h2 h3 (rw back at ready) runs
                      ∙ (ap (λ x. x ++ asked h2) (kept ∙ n) ∙ ap asked (sym back))),
            )
      ]

  pub wrapper-Ended :
      (h h' : Hybrid)
      → SoundCheck
      → SoundProcess
      → SoundRespond
      → IsSilent target
      → acts target h.base.requests ≡ []
      → ((h1 : Hybrid) → collect w h.snowflakes h ≡ some (false, h1) → Ready h1)
      → wrapper w c asks_itself invalid_title check process respond h ≡ some h'
      → (invalid : Bool) × (h1 : Hybrid) × (collect w h.snowflakes h ≡ some (invalid, h1))
        × Ended h1 invalid h'
  unfolding wrapper
  wrapper-Ended h h' sound exact quiet silent n ready e =
      let (_, e0) = if-none h.base.moved e in
      let ((invalid, h1), run, e1) = >>=-eq-some (collect w h.snowflakes h) _ e0 in
      let none_yet = ap (acts target) (collect-Kept w h.snowflakes h h1 invalid run).requests ∙ n in
      (invalid, h1, run, go invalid h1 run none_yet e1)
    where
      go :
          (invalid : Bool) (h1 : Hybrid)
          → collect w h.snowflakes h ≡ some (invalid, h1)
          → acts target h1.base.requests ≡ []
          → (if invalid
              then report_invalid asks_itself w c invalid_title h1
              else run_checked w c asks_itself invalid_title check process respond h1)
            ≡ some h'
          → Ended h1 invalid h'
      go true h1 run n e = inl (
        Reports-acts target h1.base h'.base silent
              (report_invalid-ReportsBase w c asks_itself invalid_title h1 h' e)
            ∙ n,
        inl refl,
      )
      go false h1 run n e = run_checked-Ended h1 h' sound exact quiet silent n (ready h1 run) e
