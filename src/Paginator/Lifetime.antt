-- ===== src/Paginator/Lifetime.antt =====
-- Construction, start, removal of pages and destruction of the paginators of
-- src/cogs/core/discord/message_paginator.cpp.
use reactaio.Prelude.{
  ℕ, zero, suc, ◌+◌, ◌-◌, ◌<◌, ◌≤◌, ◌≡◌, refl, Bool, true, false, List, [], ◌∷◌, none, some, leb,
  if◌then◌else◌, length, get_elem?, Text, arith, All,
}
use reactaio.Prelude.Result.{ok, throw, out_of_range}
use reactaio.Paginator.{
  Paginator, Message, Button, Event, of_embeds, of_texts, size, edit, erase_at, remove_page, row,
  with_row, start, start_for, show_page, backward, destroy,
}

module _ {E : Type 0} where
  -- The buttons of the message that a request carries.
  pub sent : Event E → List Button
  sent (Event.reply m) = m.buttons
  sent (Event.edit_response m) = m.buttons
  sent (Event.message_create m) = m.buttons
  sent (Event.message_edit m) = m.buttons
  sent (Event.direct_message user m) = m.buttons

  pub last_sent : List (Event E) → List Button
  last_sent [] = []
  last_sent (e ∷ es) = sent e

  -- A paginator is sent once: after a first `start`, of either kind, a second one changes nothing.
  pub start_twice :
      (user : ℕ) (p : Paginator E)
      → (start (start p) ≡ start p)
        × (start_for user (start p) ≡ start p)
        × (start (start_for user p) ≡ start_for user p)
  unfolding start start_for
  start_twice user p = (ground arith, ground arith, ground arith)

  -- A paginator that is built, started and goes out of scope has sent two requests, and the later
  -- one leaves the user four buttons that are all disabled.
  pub scoped_paginator :
      (m : Message E) (owner : Text) (interaction : Bool)
      → let p = destroy (start (of_embeds m owner interaction)) in
        (length p.trace ≡ 2)
        × (length (last_sent p.trace) ≡ 4)
        × All (λ b. b.disabled ≡ true) (last_sent p.trace)
  unfolding destroy start of_embeds edit with_row row last_sent sent
  scoped_paginator m owner true = (refl, refl, (refl, (refl, (refl, (refl, tt)))))
  scoped_paginator m owner false = (refl, refl, (refl, (refl, (refl, (refl, tt)))))

  length-erase_at : (i : ℕ) (xs : List E) → i < length xs → length (erase_at i xs) + 1 ≡ length xs
  unfolding erase_at
  length-erase_at i [] h = absurd (omega arith)
  length-erase_at zero (x ∷ xs) h = omega arith
  length-erase_at (suc i) (x ∷ xs) h = omega (arith, length-erase_at i xs (omega arith))

  -- A removal that succeeds takes one embed away and leaves `current_page` alone.
  pub remove_page_lem :
      (i : ℕ) (p : Paginator E) {q : Paginator E}
      → remove_page i p ≡ some (ok q)
      → (length q.pages + 1 ≡ length p.pages)
        × (q.current_page ≡ p.current_page)
        × (q.use_embeds ≡ p.use_embeds)
  unfolding remove_page
  remove_page_lem i p h = ground (arith, length-erase_at i p.pages)

  get_elem?-none : (xs : List E) (i : ℕ) → length xs ≤ i → get_elem? xs i ≡ none
  get_elem?-none [] i h = refl
  get_elem?-none (x ∷ xs) zero h = absurd (omega arith)
  get_elem?-none (x ∷ xs) (suc i) h = get_elem?-none xs i (omega arith)

  -- In a paginator of embeds with the last page on show, two removals that succeed leave `current_page` so far behind the pages that
  -- `backward` indexes out of bounds.
  pub backward_after_removals :
      (i j : ℕ) (p q r : Paginator E)
      → p.use_embeds ≡ true
      → p.current_page + 1 ≡ size p
      → remove_page i p ≡ some (ok q)
      → remove_page j q ≡ some (ok r)
      → backward r ≡ none
  unfolding backward show_page size
  backward_after_removals i j p q r e last h k =
      let a = remove_page_lem i p h in
      let b = remove_page_lem j q k in
      ground (arith, a, b, get_elem?-none r.pages (r.current_page - 1))

  -- A paginator of texts, as it is built, never loses a page: `remove_page` throws, or erases from the empty list of
  -- embeds, which is undefined.
  pub remove_page-of_texts :
      (m : Message E) (messages : List Text) (owner : Text) (interaction : Bool) (i : ℕ)
      → remove_page i (of_texts m messages owner interaction)
        ≡ (if leb (length messages) i then some (throw out_of_range) else none)
  unfolding remove_page of_texts size
  remove_page-of_texts m messages owner interaction i = ground arith
