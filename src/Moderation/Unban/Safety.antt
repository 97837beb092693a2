-- ===== src/Moderation/Unban/Safety.antt =====
-- What an unban of src/cogs/moderation/wrappers/unban/unban_wrapper.cpp comes to.
use reactaio.Moderation.Roles.{top_role, ◌>>=◌}
use reactaio.UniqueVector.{insert_range}
use reactaio.Decimal.{to_string}
use reactaio.Algorithm.{set_difference, set_intersection}
use reactaio.Moderation.Statements.{exec_prepared, has_column}
use reactaio.Moderation.Rows.{Fetched, query_one, query, only, is_null}
use reactaio.Prelude.{
  ℕ, ◌≡◌, ◌≢◌, ◌⊎◌, inl, inr, refl, sym, ap, ◌∙◌, Bool, true, false, List, [], ◌∷◌, Option, none,
  some, arith, Bool-cases, if-none, if-true, if-false, option_inj, length, Text, codes, null, not,
  ◌&&◌, ltb, ◌≤◌, if-none, Bool-cases, if-false,
}
use reactaio.Moderation.World.{
  World, Command, Embed, Request, Session, User, Row, user_key, guild_ban_delete, Role,
}
use reactaio.Moderation.Session.Acts.{acts, IsSilent}
use reactaio.Moderation.Session.Reports.{Reports-acts, reject-Reports, Reports}
use reactaio.Moderation.Checks.Allowed.{>>=-eq-some}
use reactaio.Moderation.Unban.{
  judge, forbid, decide, find_hard_bans, check_permissions, process_unbans, respond_errors,
  respond_unbanned, process_response, wrapper_function, log_to, error_title, reject_inside,
}
use reactaio.Moderation.UserWrapper.{Users, are_all_errors}

abbrev unban_target : Request → Option ℕ
unban_target (guild_ban_delete id) = some id
unban_target _ = none

unban_target-IsSilent : IsSilent unban_target
unban_target-IsSilent (guild_ban_delete _) h = absurd (ground arith)
unban_target-IsSilent _ h = refl

-- The users whose bans the requests end, in order.
unfoldable pub unbanned : List Request → List ℕ
unfolding acts
unbanned = acts unban_target

judge-requests :
    (bot_can below : Bool) (s : Session) → (judge bot_can below s).requests ≡ s.requests
unfolding judge
judge-requests true true s = refl
judge-requests true false s = refl
judge-requests false true s = refl
judge-requests false false s = refl

-- The bot may ban, and the author is not below it.
unfoldable pub Passes : World → Command → Type 0
Passes w c =
    (bot_top : Role) × (author_top : Role) × ((top_role w w.bot_member >>= w.role_at)
      ≡ some bot_top)
    × ((top_role w c.author >>= w.role_at) ≡ some author_top)
    × (bot_top.has_ban_members ≡ true)
    × (bot_top.position ≤ author_top.position)

judge-cancelled :
    (bot_can below : Bool) (s : Session)
    → (judge bot_can below s).cancel_operation ≡ false
    → (bot_can ≡ true) × (below ≡ false)
unfolding judge
judge-cancelled true false s e = (refl, refl)
judge-cancelled true true s e = absurd (ground arith)
judge-cancelled false false s e = absurd (ground arith)
judge-cancelled false true s e = absurd (ground arith)

only-columns :
    (columns : List Text) (rows : List Row) (f : Fetched)
    → only columns rows ≡ some f
    → f.columns ≡ columns
unfolding only
only-columns columns [] f e = absurd (ground arith)
only-columns columns (row ∷ []) f e = ap (λ x. x.columns) (sym (option_inj e))
only-columns columns (_ ∷ _ ∷ _) f e = absurd (ground arith)

-- A row has the columns of its statement.
query_one-columns :
    (w : World) (name : Text) (parameters : List Text) (f : Fetched)
    → query_one w name parameters ≡ some f
    → exec_prepared name (length parameters) ≡ some f.columns
unfolding query_one query
query_one-columns w name parameters f e =
    let ((columns, rows), asked, one) = >>=-eq-some (query w name parameters) _ e in
    let (own, run, e1) = >>=-eq-some (exec_prepared name (length parameters)) _ asked in
    run ∙ (ap (λ x. some x.0) (option_inj e1) ∙ ap some (sym (only-columns columns rows f one)))

unban_log-columns :
    (w : World) (parameter : Text) (f : Fetched)
    → query_one w (codes "get_unban_log") (parameter ∷ []) ≡ some f
    → f.columns ≡ codes "member_ban_remove" ∷ []
unfolding exec_prepared
unban_log-columns w parameter f e =
    sym (option_inj (query_one-columns w (codes "get_unban_log") (parameter ∷ []) f e))

no_modlog :
    (f : Fetched) (has_first : Bool) (embed : Embed) (s : Session)
    → f.columns ≡ codes "member_ban_remove" ∷ []
    → log_to f (codes "modlog") has_first embed s ≡ none
unfolding log_to is_null has_column
no_modlog f has_first embed s e = rw e refl

reject_inside-Reports :
    (w : World) (c : Command) (s s' : Session) → reject_inside w c s ≡ some s' → Reports s s'
unfolding reject_inside
reject_inside-Reports w c s s' e = elim (Bool-cases c.interaction) [
  | inl i ↦ reject-Reports w c error_title s s' (if-true c.interaction _ _ i e)
  | inr i ↦
      let (_, e1) = if-none w.refuses_nested (if-false c.interaction _ _ i e) in
      reject-Reports w c error_title s s' e1
]

module _ (w : World) (c : Command) where
  -- The members of the wrapper stay, or it is cancelled.
  forbid_outcome :
      (illegal : List User) (x x' : Users)
      → forbid w c illegal x ≡ some x'
      → (x' ≡ x) ⊎ ((x'.base.cancel_operation ≡ true) × (x'.base.requests ≡ x.base.requests))
  unfolding forbid
  forbid_outcome illegal x x' e =
      elim (Bool-cases (not (null illegal) && not c.author.is_guild_owner)) [
        | inr i ↦ inl (
            sym (option_inj (if-false (not (null illegal) && not c.author.is_guild_owner) _ _ i e)))
        | inl i ↦
            let (failures, _, e1) =
              >>=-eq-some (insert_range user_key w.past_users illegal x.users_with_errors) _
                (if-true (not (null illegal) && not c.author.is_guild_owner) _ _ i e) in
            inr (
              ap (λ y. y.base.cancel_operation) (sym (option_inj e1)),
              ap (λ y. y.base.requests) (sym (option_inj e1)),
            )
      ]

  -- Checks that do not cancel were passed and leave the users as they are; checks ask for no unban.
  pub decide_outcome :
      (hard_bans : List User) (x x' : Users)
      → decide w c hard_bans x ≡ some x'
      → (unbanned x'.base.requests ≡ unbanned x.base.requests)
        × ((x'.base.cancel_operation ≡ true)
            ⊎ ((x'.users ≡ x.users) × (x'.users_with_errors ≡ x.users_with_errors) × Passes w c))
  unfolding decide unbanned Passes
  decide_outcome hard_bans x x' e =
      let (bot, f1, e1) = >>=-eq-some (top_role w w.bot_member) _ e in
      let (author, f2, e2) = >>=-eq-some (top_role w c.author) _ e1 in
      let (bot_top, f3, e3) = >>=-eq-some (w.role_at bot) _ e2 in
      let (author_top, f4, e4) = >>=-eq-some (w.role_at author) _ e3 in
      let (illegal, _, e5) =
        >>=-eq-some (set_intersection user_key w.past_users x.users hard_bans []) _ e4 in
      let judged =
        judge bot_top.has_ban_members (ltb author_top.position bot_top.position) x.base in
      let asked =
        judge-requests bot_top.has_ban_members (ltb author_top.position bot_top.position) x.base in
      let (y, run, e6) = >>=-eq-some (forbid w c illegal (record x { base = judged })) _ e5 in
      let outcome = forbid_outcome illegal (record x { base = judged }) y run in
      let kept : y.base.requests ≡ x.base.requests = elim outcome [
        | inl q ↦ ap (λ z. z.base.requests) q ∙ asked
        | inr (_, q) ↦ q ∙ asked
      ] in
      elim (Bool-cases y.base.cancel_operation) [
        | inl k ↦
            let (s, rejected, e7) =
              >>=-eq-some (reject_inside w c y.base) _ (if-true y.base.cancel_operation _ _ k e6) in
            let reports = reject_inside-Reports w c y.base s rejected in
            let same = sym (option_inj e7) in
            (
              ap (λ z. unbanned z.base.requests) same
                  ∙ (Reports-acts unban_target y.base s unban_target-IsSilent reports
                      ∙ ap unbanned kept),
              inl (ap (λ z. z.base.cancel_operation) same ∙ (reports.same_cancel ∙ k)),
            )
        | inr k ↦
            let same = sym (option_inj (if-false y.base.cancel_operation _ _ k e6)) in
            (
              ap (λ z. unbanned z.base.requests) same ∙ ap unbanned kept,
              elim outcome [
                | inl q ↦
                    let (can, above) =
                      judge-cancelled bot_top.has_ban_members
                        (ltb author_top.position bot_top.position) x.base
                        (ap (λ z. z.base.cancel_operation) (sym q) ∙ k) in
                    inr (
                      ap (λ z. z.users) (same ∙ q),
                      ap (λ z. z.users_with_errors) (same ∙ q),
                      (
                        bot_top,
                        author_top,
                        ap (λ r. r >>= w.role_at) f1 ∙ f3,
                        ap (λ r. r >>= w.role_at) f2 ∙ f4,
                        can,
                        ground (arith, above),
                      ),
                    )
                | inr (q, _) ↦ absurd (ground (arith, sym k ∙ q))
              ],
            )
      ]

  not_all_errors :
      (users : List User) (x : Users)
      → x.users ≡ users
      → users ≢ []
      → x.users_with_errors ≡ []
      → are_all_errors x ≡ false
  unfolding are_all_errors
  not_all_errors [] x e n m = absurd (n refl)
  not_all_errors (u ∷ users) x e n m = rw (e, m) (ground arith)

  respond_unbanned_fails :
      (x : Users) (embeds all_embeds : List Embed) (s s' : Session)
      → are_all_errors x ≡ false
      → respond_unbanned w c x embeds s ≢ some (all_embeds, s')
  unfolding respond_unbanned
  respond_unbanned_fails x embeds all_embeds s s' n e =
      let (gone, _, e1) =
        >>=-eq-some (set_difference user_key w.past_users x.users x.users_with_errors []) _
          (if-false (are_all_errors x) _ _ n e) in
      let (_, e2) = if-none s.moved e1 in
      let (f, run, e3) =
        >>=-eq-some (query_one w (codes "get_unban_log") (to_string w.guild_id ∷ [])) _ e2 in
      let (s1, _, e4) = >>=-eq-some (log_to f (codes "member_ban_remove") _ _ s) _ e3 in
      let (s2, run2, _) = >>=-eq-some (log_to f (codes "modlog") _ _ s1) _ e4 in
      absurd (ground (arith, sym (no_modlog f _ _ s1 (unban_log-columns w _ f run)) ∙ run2))

  answer_fails : (x x' : Users) → are_all_errors x ≡ false → process_response w c x ≢ some x'
  unfolding process_response
  answer_fails x x' n e =
      let (_, e0) = if-none x.base.moved e in
      let ((embeds, s1), _, e1) = >>=-eq-some (respond_errors w c x) _ e0 in
      let ((all_embeds, s2), run, _) = >>=-eq-some (respond_unbanned w c x embeds s1) _ e1 in
      respond_unbanned_fails x embeds all_embeds s1 s2 n run

  -- A command for some users, none of whom has met an error, returns only if it is refused: it has
  -- then asked for no unban.
  pub returns_refused :
      (x x' : Users)
      → x.users ≢ []
      → x.users_with_errors ≡ []
      → wrapper_function w c x ≡ some x'
      → (x'.base.cancel_operation ≡ true) × (unbanned x'.base.requests ≡ unbanned x.base.requests)
  unfolding wrapper_function check_permissions process_response process_unbans are_all_errors
  returns_refused x x' some_users no_errors e =
      let (y, run, rest) = >>=-eq-some (check_permissions w c x) _ e in
      let (hard_bans, _, decided) = >>=-eq-some (find_hard_bans w) _ run in
      let (kept, ends) = decide_outcome hard_bans x y decided in
      elim (Bool-cases y.base.cancel_operation) [
        | inl k ↦
            let same = sym (option_inj (if-true y.base.cancel_operation _ _ k rest)) in
            (
              ap (λ z. z.base.cancel_operation) same ∙ k,
              ap (λ z. unbanned z.base.requests) same ∙ kept,
            )
        | inr k ↦ elim ends [
          | inl q ↦ absurd (ground (arith, sym k ∙ q))
          | inr (u, n, _) ↦ absurd (
              answer_fails (process_unbans y) x'
                (not_all_errors x.users (process_unbans y) u some_users (n ∙ no_errors))
                (if-false y.base.cancel_operation _ _ k rest))
        ]
      ]
