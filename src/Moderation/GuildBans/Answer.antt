-- ===== src/Moderation/GuildBans/Answer.antt =====
-- What the author of src/cogs/moderation/wrappers/bans/guild_bans_wrapper.cpp is shown.
use reactaio.Moderation.Session.Reports.{reject-Reports}
use reactaio.Prelude.{
  ◌≡◌, ◌⊎◌, inl, inr, refl, sym, ap, ◌∙◌, Bool, true, false, List, [], ◌∷◌, ◌++◌, some, arith,
  Bool-cases, if-true, if-false, if-none, option_inj, append-nil, map, length, Text,
}
use reactaio.Helpers.{join_with_limit}
use reactaio.Moderation.World.{
  World, Command, Session, guild_get_bans, command_insert, paginate, user_get_cached,
}
use reactaio.Moderation.Roles.{top_role, get_permitted_roles}
use reactaio.Moderation.Session.{
  has_error, log_command_invoke, reply_with, max_embed_chars, error_embed, request,
}
use reactaio.Moderation.Checks.Allowed.{>>=-eq-some}
use reactaio.Moderation.GuildBans.{
  GuildBans, judge, check_permissions, view_ban_list, process_response, wrapper_function,
  is_refused, Ban, error_title, bot_lacks,
}

pub judge-kept :
    (lacks : Text) (bot_can refused : Bool) (s : Session)
    → (judge lacks bot_can refused s).cancel_operation ≡ false
    → judge lacks bot_can refused s ≡ s
unfolding judge
judge-kept lacks true false s e = refl
judge-kept lacks true true s e = absurd (ground arith)
judge-kept lacks false false s e = absurd (ground arith)
judge-kept lacks false true s e = absurd (ground arith)

module _ (w : World) (c : Command) where
  check_permissions-kept :
      (s t : Session) → check_permissions w c s ≡ some t → (t.cancel_operation ≡ true) ⊎ (t ≡ s)
  unfolding check_permissions
  check_permissions-kept s t e =
      let (bot, _, e1) = >>=-eq-some (top_role w w.bot_member) _ e in
      let (author, _, e2) = >>=-eq-some (top_role w c.author) _ e1 in
      let (bot_top, _, e3) = >>=-eq-some (w.role_at bot) _ e2 in
      let (roles, _, e4) = >>=-eq-some (get_permitted_roles w view_ban_list) _ e3 in
      let (author_top, _, e5) = >>=-eq-some (w.role_at author) _ e4 in
      let judged =
        judge bot_lacks bot_top.has_ban_members (is_refused roles author author_top.has_ban_members)
          s in
      elim (Bool-cases judged.cancel_operation) [
        | inl k ↦ inl (
            (reject-Reports w c _ judged t (if-true judged.cancel_operation _ _ k e5)).same_cancel
            ∙ k)
        | inr k ↦ inr (
            sym (option_inj (if-false judged.cancel_operation _ _ k e5))
            ∙ judge-kept bot_lacks bot_top.has_ban_members
                (is_refused roles author author_top.has_ban_members) s k)
      ]

  pub logged_requests :
      (name : Text) (s s' : Session)
      → log_command_invoke name s ≡ some s'
      → s'.requests ≡ s.requests ++ command_insert name ∷ []
  unfolding log_command_invoke
  logged_requests name s s' e =
      let (_, e1) = if-none s.moved e in ap (λ x. x.requests) (sym (option_inj e1))

  process_blank :
      (g g' : GuildBans)
      → has_error g.base ≡ false
      → g.bans ≡ []
      → g.banned_usernames ≡ []
      → c.interaction ≡ true
      → process_response w c g ≡ some g'
      → g'.base.requests
        ≡ (g.base.requests ++ command_insert view_ban_list ∷ []) ++ paginate true [] ∷ []
  unfolding process_response reply_with join_with_limit
  process_blank g g' n b u i e =
      let (_, e1) = if-none g.base.moved (if-false (has_error g.base) _ _ n e) in
      let asked = λ (bans : List Ban). map (λ x. user_get_cached x.user_id) bans in
      let begun = record g.base { requests = g.base.requests ++ asked g.bans } in
      let (s, run, e2) =
        >>=-eq-some (log_command_invoke view_ban_list begun) _ (if-true c.interaction _ _ i e1) in
      let told = λ (names : List Text).
        let split = join_with_limit names max_embed_chars in
        (reply_with true (length split) (map (error_embed error_title) split) s).requests in
      let own : s.requests ≡ g.base.requests ++ command_insert view_ban_list ∷ [] =
        logged_requests view_ban_list begun s run
        ∙ ap (λ x. x ++ command_insert view_ban_list ∷ [])
            (ap (λ x. g.base.requests ++ asked x) b ∙ append-nil g.base.requests) in
      ap (λ x. x.base.requests) (sym (option_inj e2))
      ∙ (ap told u ∙ ap (λ x. x ++ paginate true [] ∷ []) own)

  -- The ban list of a guild is blank: a command with an interaction, in a wrapper without errors and
  -- bans, that returns was refused, or it has asked for the first page, logged itself and sent a
  -- paginator without pages.
  pub answers_blank :
      (g g' : GuildBans)
      → has_error g.base ≡ false
      → g.bans ≡ []
      → g.banned_usernames ≡ []
      → c.interaction ≡ true
      → wrapper_function w c g ≡ some g'
      → (g'.base.cancel_operation ≡ true)
        ⊎ (g'.base.requests
            ≡ ((g.base.requests ++ guild_get_bans 1 ∷ []) ++ command_insert view_ban_list ∷ [])
              ++ paginate true [] ∷ [])
  unfolding wrapper_function has_error
  answers_blank g g' n b u i e =
      let (s, run, rest) = >>=-eq-some (check_permissions w c g.base) _ e in
      elim (Bool-cases s.cancel_operation) [
        | inl k ↦ inl (
            ap (λ x. x.base.cancel_operation)
              (sym (option_inj (if-true s.cancel_operation _ _ k rest)))
            ∙ k)
        | inr k ↦ elim (check_permissions-kept g.base s run) [
          | inl q ↦ absurd (ground (arith, sym k ∙ q))
          | inr q ↦
              let begun = record g { base = request (guild_get_bans 1) s } in
              inr (
                process_blank begun g' (ap has_error q ∙ n) b u i
                  (if-false s.cancel_operation _ _ k rest)
                ∙ ap
                    (λ (x : Session).
                      ((x.requests ++ guild_get_bans 1 ∷ []) ++ command_insert view_ban_list ∷ [])
                      ++ paginate true [] ∷ [])
                    q)
        ]
      ]
