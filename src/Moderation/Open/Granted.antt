-- ===== src/Moderation/Open/Granted.antt =====
-- When the warn, soft ban and unmute commands go on.
use reactaio.Prelude.{
  ℕ, ◌≡◌, ◌↔◌, refl, true, false, List, ◌∷◌, some, arith, Bool-cases, inl, inr, All,
}
use reactaio.Moderation.World.{Role, Member, World, Command}
use reactaio.Moderation.Roles.{top_role}
use reactaio.Moderation.Checks.{Verdict, report}
use reactaio.Moderation.Checks.Allowed.{
  IsAllowed, >>=-eq-some, check_members_sound, check_members_complete, check_members_mono,
}
use reactaio.Moderation.Open.{Open, judge_open}

module _ (w : World) (c : Command) (p : Open) (protected : List ℕ) where
  -- The bot's top role has the flag and every member is allowed; of the author no flag is asked.
  pub record IsOpen (m : Member) (members : List Member) : Type 0 where
    pub bot : ℕ
    pub is_bot_top : top_role w w.bot_member ≡ some bot
    pub author : ℕ
    pub is_author_top : top_role w c.author ≡ some author
    pub bot_top : Role
    pub at_bot : w.role_at bot ≡ some bot_top
    pub author_top : Role
    pub at_author : w.role_at author ≡ some author_top
    pub bot_can : p.bot_can bot_top ≡ true
    pub allowed :
        All (IsAllowed w p.texts c.author p.no_bots protected bot_top author_top) (m ∷ members)

  pub judge_open_sound :
      (m : Member) (members : List Member) (v u : Verdict)
      → v.is_owner ≡ false
      → judge_open w c p protected (m ∷ members) v ≡ some u
      → u.cancel_operation ≡ false
      → IsOpen m members
  unfolding judge_open
  judge_open_sound m members v u o h k =
      let (bot, e1, h1) = >>=-eq-some (top_role w w.bot_member) _ h in
      let (author, e2, h2) = >>=-eq-some (top_role w c.author) _ h1 in
      let (bot_top, e3, h3) = >>=-eq-some (w.role_at bot) _ h2 in
      let (author_top, e4, h4) = >>=-eq-some (w.role_at author) _ h3 in
      elim (Bool-cases (p.bot_can bot_top)) [
        | inr f ↦ absurd (
            ground (
              arith,
              check_members_mono w p.texts c.author p.no_bots protected bot_top author_top
                  (m ∷ members) (report p.bot_lacks v) u (rw f at h4) refl,
            ))
        | inl f ↦ record {
          bot = bot;
          is_bot_top = e1;
          author = author;
          is_author_top = e2;
          bot_top = bot_top;
          at_bot = e3;
          author_top = author_top;
          at_author = e4;
          bot_can = f;
          allowed =
              (check_members_sound w p.texts c.author p.no_bots protected bot_top author_top
                (m ∷ members) v u o (rw f at h4) k).1;
        }
      ]

  -- From a verdict that is not cancelled, the tests of these commands return without a cancellation
  -- for a list with a member exactly when the bot's top role has the flag and every member is
  -- allowed, whatever the author's flags are.
  pub judge_open_lem :
      (m : Member) (members : List Member) (v : Verdict)
      → v.is_owner ≡ false
      → v.cancel_operation ≡ false
      → ((u : Verdict) × (judge_open w c p protected (m ∷ members) v ≡ some u)
          × (u.cancel_operation ≡ false))
        ↔ IsOpen m members
  unfolding judge_open
  judge_open_lem m members v o k = (
    λ h. judge_open_sound m members v h.0 o h.1 h.2,
    λ g. (
      v,
      rw (g.is_bot_top, judge_open, g.is_author_top, g.at_bot, g.bot_can, g.at_author)
          (check_members_complete w p.texts c.author p.no_bots protected g.bot_top g.author_top
            (m ∷ members) v g.allowed),
      k,
    ),
  )
