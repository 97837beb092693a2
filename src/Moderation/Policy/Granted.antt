-- ===== src/Moderation/Policy/Granted.antt =====
-- When `check_permissions` of the kick, ban and mute commands lets the command go on.
use reactaio.Prelude.{
  Option, if-true, if-false, option_inj, ℕ, ◌≡◌, ◌↔◌, refl, sym, ap, ◌∙◌, true, false, List, some,
  if◌then◌else◌, arith, Bool-cases, inl, inr, All, if-none, Option-cases, if_false_lem,
}
use reactaio.Moderation.World.{Role, Member, World, Command, Session, Request}
use reactaio.Moderation.Roles.{top_role, get_protected_roles, get_permitted_roles}
use reactaio.Moderation.Checks.{Verdict, check_members, report}
use reactaio.Moderation.Checks.Allowed.{
  IsAllowed, >>=-eq-some, check_members_sound, check_members_complete, check_members_mono,
}
use reactaio.Moderation.Session.{reject}
use reactaio.Moderation.Session.Acts.{acts, IsSilent}
use reactaio.Moderation.Session.Reports.{Reports-acts, reject-Reports}
use reactaio.Moderation.Policy.{
  Policy, check_possible, is_refused, judge_command, check_permissions, inside_transaction, none,
}

module _ (w : World) (c : Command) (p : Policy) where
  -- The command is granted for these members: the bot's and the author's top roles are known, the
  -- bot's has the flag, the author is not refused, and every member is allowed.
  pub record IsGranted (members : List Member) : Type 0 where
    pub bot : ℕ
    pub is_bot_top : top_role w w.bot_member ≡ some bot
    pub author : ℕ
    pub is_author_top : top_role w c.author ≡ some author
    pub bot_top : Role
    pub at_bot : w.role_at bot ≡ some bot_top
    pub author_top : Role
    pub at_author : w.role_at author ≡ some author_top
    pub protected : List ℕ
    pub protects : get_protected_roles w ≡ some protected
    pub permitted : List ℕ
    pub permits : get_permitted_roles w p.name ≡ some permitted
    pub bot_can : p.bot_can bot_top ≡ true
    pub author_can : is_refused w c p permitted author author_top ≡ false
    pub allowed : All (IsAllowed w p.texts c.author false protected bot_top author_top) members

  -- What `judge_command` has computed where it returns.
  record Judged (members : List Member) (v u : Verdict) : Type 0 where
    bot : ℕ
    is_bot_top : top_role w w.bot_member ≡ some bot
    author : ℕ
    is_author_top : top_role w c.author ≡ some author
    bot_top : Role
    at_bot : w.role_at bot ≡ some bot_top
    nests : w.refuses_nested ≡ false
    protected : List ℕ
    protects : get_protected_roles w ≡ some protected
    permitted : List ℕ
    permits : get_permitted_roles w p.name ≡ some permitted
    author_top : Role
    at_author : w.role_at author ≡ some author_top
    rest :
        (let v' = if p.bot_can bot_top then v else report p.bot_lacks v in
          if is_refused w c p permitted author author_top
          then some (report p.refused v')
          else check_possible w c p protected members v')
        ≡ some u

  judge_command-Judged :
      (members : List Member) (v u : Verdict)
      → judge_command w c p members v ≡ some u
      → Judged members v u
  unfolding judge_command
  judge_command-Judged members v u h =
      let (bot, e1, h1) = >>=-eq-some (top_role w w.bot_member) _ h in
      let (author, e2, h2) = >>=-eq-some (top_role w c.author) _ h1 in
      let (bot_top, e3, h3) = >>=-eq-some (w.role_at bot) _ h2 in
      let (protected, run, h4) = >>=-eq-some (inside_transaction w (get_protected_roles w)) _ h3 in
      let (n, e4) = if-none w.refuses_nested run in
      let (permitted, e5, h5) = >>=-eq-some (get_permitted_roles w p.name) _ h4 in
      let (author_top, e6, h6) = >>=-eq-some (w.role_at author) _ h5 in
      record {
        bot = bot;
        is_bot_top = e1;
        author = author;
        is_author_top = e2;
        bot_top = bot_top;
        at_bot = e3;
        nests = n;
        protected = protected;
        protects = e4;
        permitted = permitted;
        permits = e5;
        author_top = author_top;
        at_author = e6;
        rest = h6;
      }

  possible_eq :
      (members : List Member) (v v' u : Verdict) (j : Judged members v u)
      → check_possible w c p j.protected members v'
        ≡ check_members w p.texts c.author false j.protected j.bot_top j.author_top members v'
  unfolding check_possible
  possible_eq members v v' u j =
      rw (j.is_bot_top, check_possible, j.is_author_top, j.at_bot, j.at_author)

  pub judge_command_sound :
      (members : List Member) (v u : Verdict)
      → v.is_owner ≡ false
      → judge_command w c p members v ≡ some u
      → u.cancel_operation ≡ false
      → (u ≡ v) × (w.refuses_nested ≡ false) × IsGranted members
  judge_command_sound members v u o h k =
      let j = judge_command-Judged members v u h in
      elim (Bool-cases (is_refused w c p j.permitted j.author j.author_top)) [
        | inl e ↦ absurd (ground (arith, j.rest))
        | inr e ↦ elim (Bool-cases (p.bot_can j.bot_top)) [
          | inr f ↦ absurd (
              ground (
                arith,
                check_members_mono w p.texts c.author false j.protected j.bot_top j.author_top
                    members (report p.bot_lacks v) u
                    (sym (possible_eq members v (report p.bot_lacks v) u j) ∙ (rw (e, f) at j.rest))
                    refl,
              ))
          | inl f ↦
              (let (same, allowed) =
                  check_members_sound w p.texts c.author false j.protected j.bot_top j.author_top
                    members v u o (sym (possible_eq members v v u j) ∙ (rw (e, f) at j.rest)) k in
                (
                  same,
                  j.nests,
                  record {
                    bot = j.bot;
                    is_bot_top = j.is_bot_top;
                    author = j.author;
                    is_author_top = j.is_author_top;
                    bot_top = j.bot_top;
                    at_bot = j.at_bot;
                    author_top = j.author_top;
                    at_author = j.at_author;
                    protected = j.protected;
                    protects = j.protects;
                    permitted = j.permitted;
                    permits = j.permits;
                    bot_can = f;
                    author_can = e;
                    allowed = allowed;
                  },
                ))
        ]
      ]

  pub judge_command_complete :
      (members : List Member) (v : Verdict)
      → w.refuses_nested ≡ false
      → IsGranted members
      → judge_command w c p members v ≡ some v
  unfolding judge_command check_possible
  judge_command_complete members v n g =
      let begins : inside_transaction w (get_protected_roles w) ≡ some g.protected =
        if_false_lem w.refuses_nested _ _ n ∙ g.protects in
      rw
        (
          g.is_bot_top, judge_command, g.is_author_top, g.at_bot, begins, g.permits, g.at_author,
          g.bot_can, g.author_can,
        )
        (check_members_complete w p.texts c.author false g.protected g.bot_top g.author_top members
          v g.allowed)

  begun : Session → Verdict
  begun s = record { errors = s.errors; cancel_operation = s.cancel_operation; is_owner = false }

  check_permissions_begins :
      (s s' : Session)
      → check_permissions w c p s ≡ some s'
      → s'.cancel_operation ≡ false
      → (s' ≡ s) × (w.refuses_nested ≡ false) × IsGranted s.members
  unfolding check_permissions begun
  check_permissions_begins s s' h k =
      let (v, run, rest) = >>=-eq-some (judge_command w c p s.members (begun s)) _ h in
      elim (Bool-cases v.cancel_operation) [
        | inl e ↦ absurd (
            ground (
              arith,
              (reject-Reports w c p.title (record s { errors = v.errors; cancel_operation = true })
                  s' (rw e at rest)).same_cancel,
            ))
        | inr e ↦
            let (same, n, granted) = judge_command_sound s.members (begun s) v refl run e in
            (settle v same e rest, n, granted)
      ]
    where
      settle :
          (v : Verdict)
          → v ≡ begun s
          → v.cancel_operation ≡ false
          → (let t = record s { errors = v.errors; cancel_operation = v.cancel_operation } in
              if v.cancel_operation then reject w c p.title t else some t)
            ≡ some s'
          → s' ≡ s
      settle v same e rest =
          let going : s.cancel_operation ≡ false = sym (ap (λ x. x.cancel_operation) same) ∙ e in
          ground (arith, rw (same, going) at rest)

  pub check_permissions_sound :
      (s s' : Session)
      → check_permissions w c p s ≡ some s'
      → s'.cancel_operation ≡ false
      → (s' ≡ s) × IsGranted s.members
  check_permissions_sound s s' h k =
      let (same, _, granted) = check_permissions_begins s s' h k in (same, granted)

  pub check_permissions_complete :
      (s : Session)
      → s.cancel_operation ≡ false
      → w.refuses_nested ≡ false
      → IsGranted s.members
      → check_permissions w c p s ≡ some s
  unfolding check_permissions begun
  check_permissions_complete s k n g = rw (judge_command_complete s.members (begun s) n g, k) refl

  -- Where the database refuses a second transaction, no check gets as far as a verdict.
  pub check_permissions_refused :
      (s : Session) → w.refuses_nested ≡ true → check_permissions w c p s ≡ none
  unfolding check_permissions begun
  check_permissions_refused s n = elim (Option-cases (judge_command w c p s.members (begun s))) [
    | inl e ↦ rw e refl
    | inr (u, e) ↦ absurd (ground (arith, n, (judge_command-Judged s.members (begun s) u e).nests))
  ]

  -- Checking only reports: it kicks and bans nobody.
  pub check_permissions-acts :
      (target : Request → Option ℕ) (s s' : Session)
      → IsSilent target
      → check_permissions w c p s ≡ some s'
      → acts target s'.requests ≡ acts target s.requests
  unfolding check_permissions begun
  check_permissions-acts target s s' silent h =
      let (v, run, rest) = >>=-eq-some (judge_command w c p s.members (begun s)) _ h in
      let t : Session = record s { errors = v.errors; cancel_operation = v.cancel_operation } in
      elim (Bool-cases v.cancel_operation) [
        | inl e ↦
            Reports-acts target t s' silent
              (reject-Reports w c p.title t s' (if-true v.cancel_operation _ _ e rest))
        | inr e ↦
            ap (λ x. acts target x.requests)
              (sym (option_inj (if-false v.cancel_operation _ _ e rest)))
      ]

  -- From a session that nothing has cancelled, `check_permissions` returns an uncancelled session
  -- exactly when the command is granted for its members and the database does not refuse a second
  -- transaction while that of the check is live.
  pub check_permissions_lem :
      (s : Session)
      → s.cancel_operation ≡ false
      → ((s' : Session) × (check_permissions w c p s ≡ some s') × (s'.cancel_operation ≡ false))
        ↔ ((w.refuses_nested ≡ false) × IsGranted s.members)
  unfolding check_permissions begun
  check_permissions_lem s k = (
    λ h. let (_, n, g) = check_permissions_begins s h.0 h.1 h.2 in (n, g),
    λ g. (s, check_permissions_complete s k g.0 g.1, k),
  )
