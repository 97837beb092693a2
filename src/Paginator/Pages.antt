-- ===== src/Paginator/Pages.antt =====
-- Which page a paginator of src/cogs/core/discord/message_paginator.cpp shows.
use native.Mathlib.Nat.{mod-eq_of_lt, mod_self}
use reactaio.Strings.{text_eq}
use reactaio.Paginator.{on_button_click}
use reactaio.Prelude.{
  ◌∙◌, ==_iff, ℕ, zero, suc, ◌+◌, ◌-◌, ◌%◌, ◌<◌, ◌≤◌, ◌≡◌, refl, List, [], ◌∷◌, Option, none, some,
  ◌==◌, if◌then◌else◌, length, get_elem?, Text, arith, Bool-cases, inl, inr,
}
use reactaio.Paginator.{
  Paginator, ushort, size, edit, show_page, forward, backward, last_page, skip_last, skip_first,
}

get_elem?-some {ℓ} :
    {A : Type ℓ} (xs : List A) (i : ℕ) → i < length xs → (x : A) × (get_elem? xs i ≡ some x)
get_elem?-some [] i h = absurd (omega arith)
get_elem?-some (x ∷ xs) zero h = (x, refl)
get_elem?-some (x ∷ xs) (suc i) h = get_elem?-some xs i (omega arith)

-- A page of either kind.
pub data Page (E : Type 0) : Type 0 where
  embed_page : E → Page E
  text_page : Text → Page E

wraps : (n : ℕ) → n ≤ ushort → 0 < n → n % ushort % n % ushort ≡ 0
wraps n b h = elim (Bool-cases (n == ushort)) [
  | inl e ↦ grind arith
  | inr e ↦ rw (mod-eq_of_lt {n = n} {m = ushort} (ground arith), mod_self) refl
]

-- Where `++current_page % size()` lands.
next_page :
    (c n : ℕ)
    → c < n
    → n ≤ ushort
    → (c + 1) % ushort % n % ushort ≡ (if c + 1 == n then 0 else c + 1)
next_page c n h b = elim (Bool-cases (c + 1 == n)) [
  | inl e ↦ rw (e, (==_iff (c + 1) n).0 e) (wraps n b (omega arith))
  | inr e ↦
      rw
        (
          e,
          mod-eq_of_lt {n = c + 1} {m = ushort} (ground arith),
          mod-eq_of_lt {n = c + 1} {m = n} (ground arith),
        )
        (ground arith)
]

forth_back :
    (c n : ℕ)
    → c < n
    → (d : ℕ) → d ≡ (if c + 1 == n then 0 else c + 1)
    → (if d == 0 then n - 1 else d - 1) ≡ c
forth_back c n h d e = ground arith

back_forth :
    (c n : ℕ)
    → c < n
    → (d : ℕ) → d ≡ (if c == 0 then n - 1 else c - 1)
    → (if d + 1 == n then 0 else d + 1) ≡ c
back_forth c n h d e = ground arith

module _ {E : Type 0} where
  -- There is a page, the current one is among them, and their number fits the page counter.
  pub record IsValid (p : Paginator E) : Type 0 where
    pub current : p.current_page < size p
    pub fits : size p ≤ ushort

  pub page_at : ℕ → Paginator E → Option (Page E)
  page_at i p =
      if p.use_embeds
      then elim (get_elem? p.pages i) [ none ↦ none | some e ↦ some (embed_page e) ]
      else elim (get_elem? p.messages i) [ none ↦ none | some t ↦ some (text_page t) ]

  -- What the message shows of the pages.
  pub shown : Paginator E → Option (Page E)
  shown p =
      if p.use_embeds
      then elim p.message.embeds [ [] ↦ none | e ∷ _ ↦ some (embed_page e) ]
      else some (text_page p.message.content)

  -- A move returns, at page `i`, over the same pages, and its message shows that page.
  abbrev pub MovesTo : ℕ → Paginator E → Option (Paginator E) → Type 0
  MovesTo i p r =
      (q : Paginator E) × (r ≡ some q)
      × (q.current_page ≡ i)
      × ((q.pages ≡ p.pages) × (q.messages ≡ p.messages) × (q.use_embeds ≡ p.use_embeds))
      × (shown q ≡ page_at i p)

  show_page-MovesTo :
      (p : Paginator E) → p.current_page < size p → MovesTo p.current_page p (show_page p)
  unfolding show_page edit size shown page_at
  show_page-MovesTo p h = elim (Bool-cases p.use_embeds) [
    | inl e ↦
        let (x, f) = get_elem?-some p.pages p.current_page (ground arith) in
        (
          edit (record p.message { embeds = x ∷ [] }) p,
          ground arith,
          refl,
          (refl, refl, refl),
          ground arith,
        )
    | inr e ↦
        let (x, f) = get_elem?-some p.messages p.current_page (ground arith) in
        (
          edit (record p.message { content = x }) p,
          ground arith,
          refl,
          (refl, refl, refl),
          ground arith,
        )
  ]

  -- The same with the page set first.
  moves :
      (i : ℕ) (p : Paginator E)
      → i < size p
      → MovesTo i p (show_page (record p { current_page = i }))
  unfolding size page_at
  moves i p h = show_page-MovesTo (record p { current_page = i }) h

  moves_by :
      (i : ℕ) (p : Paginator E) (r : Option (Paginator E))
      → i < size p
      → r ≡ show_page (record p { current_page = i })
      → MovesTo i p r
  moves_by i p r h e = rw e (moves i p h)

  last_page-sub : (p : Paginator E) → 0 < size p → size p ≤ ushort → last_page p ≡ size p - 1
  unfolding last_page
  last_page-sub p h b = omega arith

  -- Every move of a valid paginator returns and shows the page that it goes to: `forward` the next
  -- one and `backward` the one before, both round the ends, and the skips the last and the first.
  pub moves_lem :
      (p : Paginator E)
      → IsValid p
      → MovesTo (if p.current_page + 1 == size p then 0 else p.current_page + 1) p (forward p)
        × MovesTo (if p.current_page == 0 then size p - 1 else p.current_page - 1) p (backward p)
        × MovesTo (size p - 1) p (skip_last p)
        × MovesTo 0 p (skip_first p)
  unfolding forward backward skip_last skip_first
  moves_lem p v = (
    moves_by _ p (forward p) (ground (arith, v.current))
        (ground (arith, v.current, next_page p.current_page (size p) v.current v.fits)),
    moves_by _ p (backward p) (ground (arith, v.current))
        (ground (arith, v.current, last_page-sub p (omega (arith, v.current)) v.fits)),
    moves_by _ p (skip_last p) (omega (arith, v.current))
        (ground (arith, v.current, last_page-sub p (omega (arith, v.current)) v.fits)),
    moves 0 p (omega (arith, v.current)),
  )

  -- Where a move goes, the paginator is valid again.
  MovesTo-IsValid :
      (i : ℕ) (p : Paginator E) (r : Option (Paginator E))
      → IsValid p
      → i < size p
      → MovesTo i p r
      → (q : Paginator E) × (r ≡ some q) × IsValid q
  unfolding size
  MovesTo-IsValid i p r v h (q, run, at_i, same, _) =
      (q, run, record { current = ground (arith, v.current); fits = ground (arith, v.fits) })

  -- A click on any component, of this paginator or of another, is handled without a fault and
  -- leaves the paginator valid.
  click-IsValid :
      (custom_id : Text) (p : Paginator E)
      → IsValid p
      → (q : Paginator E) × (on_button_click custom_id p ≡ some q) × IsValid q
  unfolding on_button_click
  click-IsValid custom_id p v =
      let (f, b, l, z) = moves_lem p v in
      elim (Bool-cases (text_eq custom_id p.forward_id)) [
        | inl e ↦ rw e (MovesTo-IsValid _ p (forward p) v (ground (arith, v.current)) f)
        | inr e ↦ elim (Bool-cases (text_eq custom_id p.backward_id)) [
          | inl e2 ↦ rw (e, e2) (MovesTo-IsValid _ p (backward p) v (ground (arith, v.current)) b)
          | inr e2 ↦ elim (Bool-cases (text_eq custom_id p.skip_first_id)) [
            | inl e3 ↦
                rw (e, e2, e3) (MovesTo-IsValid 0 p (skip_first p) v (omega (arith, v.current)) z)
            | inr e3 ↦ elim (Bool-cases (text_eq custom_id p.skip_last_id)) [
              | inl e4 ↦
                  rw (e, e2, e3, e4)
                    (MovesTo-IsValid _ p (skip_last p) v (omega (arith, v.current)) l)
              | inr e4 ↦ rw (e, e2, e3, e4) (p, refl, v)
            ]
          ]
        ]
      ]

  -- The clicks of a session, in order.
  pub clicks : List Text → Paginator E → Option (Paginator E)
  unfolding on_button_click
  clicks [] p = some p
  clicks (id ∷ ids) p = elim (on_button_click id p) [ none ↦ none | some q ↦ clicks ids q ]

  -- Whatever is clicked and however often, a valid paginator never indexes out of bounds, and its
  -- current page stays one of its pages.
  pub clicks-IsValid :
      (ids : List Text) (p : Paginator E)
      → IsValid p
      → (q : Paginator E) × (clicks ids p ≡ some q) × IsValid q
  unfolding clicks
  clicks-IsValid [] p v = (p, refl, v)
  clicks-IsValid (id ∷ ids) p v =
      let (q, run, w) = click-IsValid id p v in
      let (r, runs, u) = clicks-IsValid ids q w in (r, rw (run, clicks) runs, u)

  -- A second move behind a first one.
  abbrev pub then_move :
      (Paginator E → Option (Paginator E)) → Option (Paginator E) → Option (Paginator E)
  then_move move none = none
  then_move move (some p) = move p

  abbrev SamePages : Paginator E → Paginator E → Type 0
  SamePages q p = (q.pages ≡ p.pages) × (q.messages ≡ p.messages) × (q.use_embeds ≡ p.use_embeds)

  size-SamePages : (q p : Paginator E) → SamePages q p → size q ≡ size p
  unfolding size
  size-SamePages q p s = ground arith

  page_at-SamePages : (i : ℕ) (q p : Paginator E) → SamePages q p → page_at i q ≡ page_at i p
  unfolding page_at
  page_at-SamePages i q p s = rw (s.0, s.1, s.2)

  MovesTo-same :
      (i j : ℕ) (q p : Paginator E) (r : Option (Paginator E))
      → SamePages q p
      → i ≡ j
      → MovesTo i q r
      → MovesTo j p r
  unfolding page_at
  MovesTo-same i j q p r s e (t, run, at_t, same, sh) =
      (t, run, at_t ∙ e, ground arith, rw (← e) (sh ∙ page_at-SamePages i q p s))

  -- In a valid paginator `backward` after `forward`, and `forward` after `backward`, come back to the same page and show
  -- it again.
  pub forward-backward :
      (p : Paginator E)
      → IsValid p
      → MovesTo p.current_page p (then_move backward (forward p))
        × MovesTo p.current_page p (then_move forward (backward p))
  forward-backward p v = (there_and_back, back_and_there)
    where
      there_and_back : MovesTo p.current_page p (then_move backward (forward p))
      there_and_back =
          let m = (moves_lem p v).0 in
          let w : IsValid m.0 = record {
            current = ground (arith, v.current, m.2, size-SamePages m.0 p m.3);
            fits = rw (size-SamePages m.0 p m.3) v.fits;
          } in
          rw m.1 (
            MovesTo-same _ p.current_page m.0 p (backward m.0) m.3
              (rw (size-SamePages m.0 p m.3)
                (forth_back p.current_page (size p) v.current m.0.current_page m.2))
              ((moves_lem m.0 w).1))

      back_and_there : MovesTo p.current_page p (then_move forward (backward p))
      back_and_there =
          let m = (moves_lem p v).1 in
          let w : IsValid m.0 = record {
            current = ground (arith, v.current, m.2, size-SamePages m.0 p m.3);
            fits = rw (size-SamePages m.0 p m.3) v.fits;
          } in
          rw m.1 (
            MovesTo-same _ p.current_page m.0 p (forward m.0) m.3
              (rw (size-SamePages m.0 p m.3)
                (back_forth p.current_page (size p) v.current m.0.current_page m.2))
              ((moves_lem m.0 w).0))
