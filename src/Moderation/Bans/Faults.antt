-- ===== src/Moderation/Bans/Faults.antt =====
-- When the answers of the bans of src/cogs/moderation/wrappers come to their end.
use reactaio.Prelude.{
  ℕ, suc, ◌+◌, ◌≡◌, ◌⊎◌, refl, sym, ap, ◌∙◌, Bool, true, false, ◌&&◌, List, [], ◌∷◌, some, ◌==◌,
  map, length, length-append, Bool-cases, inl, inr, if-true, if-false, if-none, option_inj, arith,
}
use reactaio.Helpers.{join_with_limit}
use reactaio.Algorithm.{set_difference}
use reactaio.Moderation.World.{World, Command, Embed, Session, user_key}
use reactaio.Moderation.Checks.Allowed.{>>=-eq-some}
use reactaio.Moderation.Session.{
  has_error, reply_with, log_command_invoke, error_embed, max_embed_chars,
}
use reactaio.Moderation.Hybrid.{Hybrid, are_all_errors}
use reactaio.Moderation.Bans.{
  Kind, respond_errors, log_all, announcement, respond_banned, send_answer, finish,
  process_response,
}

pub length-map {ℓ κ} :
    {A : Type ℓ} {B : Type κ} (f : A → B) (xs : List A) → length (map f xs) ≡ length xs
length-map f [] = refl
length-map f (x ∷ xs) = ap suc (length-map f xs)

-- A reply with other than one embed moves the command.
pub reply_with-moved :
    (hidden : Bool) (chunks : ℕ) (embeds : List Embed) (s : Session)
    → (reply_with hidden chunks embeds s).moved ≡ false
    → (chunks == 1) ≡ true
unfolding reply_with
reply_with-moved hidden chunks embeds s h = elim (Bool-cases (chunks == 1)) [
  | inl e ↦ e
  | inr e ↦ absurd (ground (arith, rw (e, reply_with) at h))
]

module _ (w : World) (c : Command) (k : Kind) where
  -- The answer to an interaction has one embed.
  send_answer_one :
      (embeds : List Embed) (h : Hybrid) (s : Session)
      → c.interaction ≡ true
      → send_answer c k embeds h ≡ some s
      → (length embeds == 1) ≡ true
  unfolding send_answer log_command_invoke
  send_answer_one embeds h s i e =
      let hidden = are_all_errors h && has_error h.base in
      let (m, _) =
        if-none (reply_with hidden (length embeds) embeds h.base).moved
          (if-true c.interaction _ _ i e) in
      reply_with-moved hidden (length embeds) embeds h.base m

  finish_one :
      (embeds : List Embed) (h h' : Hybrid)
      → c.interaction ≡ true
      → finish c k embeds h ≡ some h'
      → (length embeds == 1) ≡ true
  unfolding finish
  finish_one embeds h h' i e =
      let (s, run, _) = >>=-eq-some (send_answer c k embeds h) _ e in
      send_answer_one embeds h s i run

  -- The embeds that are sent, and whether the command is still there for the logs.
  respond_banned_embeds :
      (embeds embeds' : List Embed) (h h' : Hybrid)
      → respond_banned w c k embeds h ≡ some (embeds', h')
      → ((are_all_errors h ≡ true) × (embeds' ≡ embeds))
        ⊎ ((are_all_errors h ≡ false)
            × (h.base.moved ≡ false)
            × (length embeds' ≡ length embeds + 1))
  unfolding respond_banned
  respond_banned_embeds embeds embeds' h h' e = elim (Bool-cases (are_all_errors h)) [
    | inl a ↦ inl (a, sym (ap (λ x. x.0) (option_inj (if-true (are_all_errors h) _ _ a e))))
    | inr a ↦
        let (users, _, e1) =
          >>=-eq-some (set_difference user_key w.past_users h.users h.users_with_errors []) _
            (if-false (are_all_errors h) _ _ a e) in
        let (m, e2) = if-none h.base.moved e1 in
        let (s, _, e3) = >>=-eq-some (log_all w c k users k.logs h.base) _ e2 in
        inr (
          a,
          m,
          ap length (sym (ap (λ x. x.0) (option_inj e3)))
              ∙ length-append embeds (announcement w c k h.base.duration users ∷ []),
        )
  ]

  -- With an interaction, an answer that comes to its end found no error and not all bans failed, or
  -- it found that all failed and that their errors fit into one embed.
  pub process_response_one :
      (h h' : Hybrid)
      → c.interaction ≡ true
      → process_response w c k h ≡ some h'
      → ((has_error h.base ≡ false) × (are_all_errors h ≡ false))
        ⊎ ((has_error h.base ≡ true)
            × (are_all_errors h ≡ true)
            × ((length (join_with_limit h.base.errors max_embed_chars) == 1) ≡ true))
  unfolding process_response respond_errors are_all_errors
  process_response_one h h' i e =
      let (_, e0) = if-none h.base.moved e in
      let ((embeds, h1), run, e1) = >>=-eq-some (respond_errors w c k h) _ e0 in
      let ((all_embeds, h2), runs, e2) = >>=-eq-some (respond_banned w c k embeds h1) _ e1 in
      let one = finish_one all_embeds h2 h' i e2 in
      elim (Bool-cases (has_error h.base)) [
        | inr f ↦
            let same = option_inj (if-false (has_error h.base) _ _ f run) in
            elim (respond_banned_embeds embeds all_embeds h1 h2 runs) [
              | inl (a, q) ↦
                  let n : length all_embeds ≡ 0 = ap length (q ∙ sym (ap (λ x. x.0) same)) in
                  absurd (ground (arith, one, n))
              | inr (a, _, _) ↦ inl (f, ap (λ x. are_all_errors x.1) same ∙ a)
            ]
        | inl f ↦
            let same =
              option_inj (if-true c.interaction _ _ i (if-true (has_error h.base) _ _ f run)) in
            let split = join_with_limit h.base.errors max_embed_chars in
            let n : length split ≡ length embeds =
              sym (length-map (error_embed k.error_title) split) ∙ ap (λ x. length x.0) same in
            elim (respond_banned_embeds embeds all_embeds h1 h2 runs) [
              | inl (a, q) ↦
                  let n' : length split ≡ length all_embeds = n ∙ ap length (sym q) in
                  inr (f, ap (λ x. are_all_errors x.1) same ∙ a, ground (arith, one, n'))
              | inr (a, m, q) ↦
                  let chunks =
                    reply_with-moved (are_all_errors h) (length split)
                      (map (error_embed k.error_title) split) h.base
                      (ap (λ x. x.1.base.moved) same ∙ m) in
                  absurd (ground (arith, one, n, q, chunks))
            ]
      ]
