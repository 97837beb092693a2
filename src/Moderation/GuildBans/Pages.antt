-- ===== src/Moderation/GuildBans/Pages.antt =====
-- That the calls of src/cogs/moderation/wrappers/bans/guild_bans_wrapper.cpp come to an end with all
-- bans.
use reactaio.Moderation.Checks.Allowed.{>>=-eq-some}
use reactaio.Prelude.{
  ℕ, zero, suc, ◌+◌, ◌≤◌, ◌<◌, ◌≡◌, ◌⊎◌, inl, inr, refl, true, ◌||◌, List, [], ◌∷◌, Option, some,
  arith, Bool-cases, All, ltb, length, if◌then◌else◌, ◌==◌, option_inj, ap, sym,
}
use reactaio.UniqueVector.{contains}
use reactaio.UniqueVector.Insert.{
  Quiet, insert-Quiet, sorted_insert, contains-sorted_insert, All-insert,
}
use reactaio.Moderation.GuildBans.{
  Ban, ban_key, GuildBans, max_guild_ban_fetch, Fetch, got, collect_page, callback, recursive_call,
  insert,
}

abbrev id_key : Ban → ℕ
id_key b = b.user_id

-- The greatest id of a page and of `n`.
unfoldable pub top : ℕ → List Ban → ℕ
top n [] = n
top n (b ∷ page) = top (if ltb n b.user_id then b.user_id else n) page

-- The bans past an id.
unfoldable pub past : ℕ → List Ban → ℕ
past n [] = 0
past n (b ∷ bans) = (if ltb n b.user_id then 1 else 0) + past n bans

-- What Discord promises of the page past `after`, for the bans of the guild: it has bans of the guild
-- that are past `after`, and any other of these only if it is full and ends before it.
pub record Serves (past_end : List Ban → Option Ban) (all : List Ban) (after : ℕ) (page : List Ban)
    : Type 0 where
  pub quiet : All (Quiet ban_key past_end) page
  pub sound : All (λ b. (after < b.user_id) × (contains id_key all b ≡ true)) page
  pub complete :
      All
        (λ b.
          (b.user_id ≤ after)
          ⊎ (contains ban_key page b ≡ true)
          ⊎ ((max_guild_ban_fetch ≤ length page) × (top after page < b.user_id)))
        all

top_above : (n : ℕ) (page : List Ban) → n ≤ top n page
unfolding top
top_above n [] = ground arith
top_above n (b ∷ page) = elim (Bool-cases (ltb n b.user_id)) [
  | inl e ↦ ground (arith, e, top_above b.user_id page)
  | inr e ↦ ground (arith, e, top_above n page)
]

past_mono : (m n : ℕ) (bans : List Ban) → m ≤ n → past n bans ≤ past m bans
unfolding past
past_mono m n [] h = ground arith
past_mono m n (b ∷ bans) h = ground (arith, past_mono m n bans h)

past-length : (n : ℕ) (bans : List Ban) → past n bans ≤ length bans
unfolding past
past-length n [] = ground arith
past-length n (b ∷ bans) = ground (arith, past-length n bans)

-- A step over a ban leaves fewer.
past_step :
    (m n : ℕ) (bans : List Ban) (b : Ban)
    → m < b.user_id
    → b.user_id ≤ n
    → contains id_key bans b ≡ true
    → past n bans < past m bans
unfolding past contains
past_step m n [] b h k e = absurd (ground arith)
past_step m n (x ∷ bans) b h k e = elim (Bool-cases (x.user_id == b.user_id)) [
  | inl p ↦ ground (arith, p, past_mono m n bans (ground arith))
  | inr p ↦ ground (arith, p, past_step m n bans b h k (ground (arith, p)))
]

collect_page_lem :
    (past_end : List Ban → Option Ban) (page : List Ban) (n : ℕ) (bans : List Ban)
    → All (Quiet ban_key past_end) page
    → (out : List Ban) × (collect_page past_end page n bans ≡ some (top n page, out))
      × ((b : Ban) → contains ban_key out b ≡ (contains ban_key bans b || contains ban_key page b))
unfolding collect_page top contains
collect_page_lem past_end [] n bans q = (bans, refl, λ b. ground arith)
collect_page_lem past_end (x ∷ page) n bans (q, qs) =
    let (out, run, law) =
      collect_page_lem past_end page (if ltb n x.user_id then x.user_id else n)
        (sorted_insert ban_key x bans) qs in
    (
      out,
      rw (insert-Quiet ban_key past_end x bans q) run,
      λ b. ground (arith, law b, contains-sorted_insert ban_key x b bans),
    )

collect_page-All :
    (P : Ban → Type 0) (past_end : List Ban → Option Ban) (page : List Ban) (n m : ℕ)
    (bans out : List Ban)
    → collect_page past_end page n bans ≡ some (m, out)
    → All P page
    → All P bans
    → All P out
unfolding collect_page
collect_page-All P past_end [] n m bans out e ps qs = rw (ap (λ x. x.1) (sym (option_inj e))) qs
collect_page-All P past_end (x ∷ page) n m bans out e (p, ps) qs =
    let (more, run, rest) = >>=-eq-some (insert ban_key past_end x bans) _ e in
    collect_page-All P past_end page (if ltb n x.user_id then x.user_id else n) m more out rest ps
      (All-insert ban_key P past_end x bans run p qs)

All-both :
    (P Q R : Ban → Type 0) (bans : List Ban)
    → ((b : Ban) → P b → Q b → R b)
    → All P bans
    → All Q bans
    → All R bans
All-both P Q R [] f ps qs = tt
All-both P Q R (b ∷ bans) f (p, ps) (q, qs) = (f b p q, All-both P Q R bans f ps qs)

-- A full page leaves fewer bans.
full_page :
    (past_end : List Ban → Option Ban) (all : List Ban) (after : ℕ) (page : List Ban)
    → Serves past_end all after page
    → max_guild_ban_fetch ≤ length page
    → past (top after page) all < past after all
unfolding top
full_page past_end all after [] s full = absurd (ground arith)
full_page past_end all after (b ∷ page) s full =
    let (above, known) = s.sound.0 in
    past_step after _ all b above
      (ground (arith, above, top_above (if ltb after b.user_id then b.user_id else after) page))
      known

module _ (past_end : List Ban → Option Ban) (fetch : ℕ → Fetch) (all : List Ban) where
  -- A ban past `after` is in the list, by its address.
  abbrev pub Found : ℕ → GuildBans → Ban → Type 0
  Found after g b = (b.user_id ≤ after) ⊎ (contains ban_key g.bans b ≡ true)

  -- A ban of the guild, by its user.
  abbrev pub Known : Ban → Type 0
  Known b = contains id_key all b ≡ true

  collected :
      (after : ℕ) (page bans out : List Ban)
      → Serves past_end all after page
      → collect_page past_end page after bans ≡ some (top after page, out)
      → All Known bans
      → All Known out
  collected after page bans out s run known =
      collect_page-All Known past_end page after (top after page) bans out run
        (All-both _ _ Known page (λ b p q. p.1) s.sound s.sound) known

  rounds :
      ((after : ℕ) → (page : List Ban) × (fetch after ≡ got page) × Serves past_end all after page)
      → (fuel after : ℕ) (g : GuildBans) → past after all < fuel
      → All Known g.bans
      → (g' : GuildBans) × (recursive_call past_end fetch fuel after g ≡ some g')
        × All (Found after g') all
        × All Known g'.bans
        × ((b : Ban) → contains ban_key g.bans b ≡ true → contains ban_key g'.bans b ≡ true)
        × (g'.base ≡ g.base)
  unfolding recursive_call callback
  rounds serves zero after g h known = absurd (ground (arith, h))
  rounds serves (suc fuel) after g h known =
      let (page, served, s) = serves after in
      let (out, run, law) = collect_page_lem past_end page after g.bans s.quiet in
      elim (Bool-cases (ltb (length page) max_guild_ban_fetch)) [
        | inl short ↦ (
          record g { bans = out },
          rw (served, run, short) refl,
          All-both _ _ _ all
              (λ b p q. elim p [
                | inl low ↦ inl low
                | inr (inl c) ↦ inr (ground (arith, law b, c))
                | inr (inr (full, _)) ↦ absurd (ground (arith, full, short))
              ])
              s.complete s.complete,
          collected after page g.bans out s run known,
          λ b c. ground (arith, law b, c),
          refl,
        )
        | inr long ↦
            let (g', ends, found, ours, kept, same) =
              rounds serves fuel (top after page) (record g { bans = out })
                (ground (arith, h, full_page past_end all after page s (ground (arith, long))))
                (collected after page g.bans out s run known) in
            (
              g',
              rw (served, run, long) ends,
              All-both _ _ _ all
                  (λ b p q. elim p [
                    | inl low ↦ inl low
                    | inr (inl c) ↦ inr (kept b (ground (arith, law b, c)))
                    | inr (inr (_, later)) ↦ elim q [
                      | inl low ↦ absurd (ground (arith, later, low))
                      | inr c ↦ inr c
                    ]
                  ])
                  s.complete found,
              ours,
              λ b c. kept b (ground (arith, law b, c)),
              same,
            )
      ]

  -- Where Discord serves the bans of a guild, more rounds than the guild has bans are enough for a
  -- list that begins empty: the calls end, with every ban past `after` in the list, by its address,
  -- with no ban that is not the guild's, and with no error added.
  pub recursive_call_ends :
      ((after : ℕ) → (page : List Ban) × (fetch after ≡ got page) × Serves past_end all after page)
      → (fuel after : ℕ) (g : GuildBans) → length all < fuel
      → g.bans ≡ []
      → (g' : GuildBans) × (recursive_call past_end fetch fuel after g ≡ some g')
        × All (Found after g') all
        × All Known g'.bans
        × (g'.base ≡ g.base)
  recursive_call_ends serves fuel after g h e =
      let (g', run, found, ours, _, same) =
        rounds serves fuel after g (ground (arith, h, past-length after all)) (rw e tt) in
      (g', run, found, ours, same)
