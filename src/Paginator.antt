-- ===== src/Paginator.antt =====
-- src/cogs/core/discord/message_paginator.h and message_paginator.cpp. `none` is undefined
-- behaviour. Requests to Discord are kept in a trace, the newest first.
pub mod Pages
pub mod Lifetime
use reactaio.Prelude.{
  ℕ, zero, suc, ◌+◌, ◌-◌, ◌%◌, ◌^◌, Bool, true, false, not, List, [], ◌∷◌, ◌++◌, Option, none, some,
  ltb, leb, ◌==◌, if◌then◌else◌, length, get_elem?, Text, codes, map,
}
use reactaio.Prelude.Result.{Result, ok, throw, out_of_range, invalid_argument}
use reactaio.Strings.{text_eq}

pub record Button : Type 0 where
  pub custom_id : Text
  pub disabled : Bool

-- `dpp::message`, with the type of embeds left open. Its components are the buttons of the action
-- row.
pub record Message (E : Type 0) : Type 0 where
  pub content : Text
  pub embeds : List E
  pub buttons : List Button

pub data Event (E : Type 0) : Type 0 where
  reply edit_response message_create message_edit : Message E → Event E
  direct_message : ℕ → Message E → Event E

pub record Paginator (E : Type 0) : Type 0 where
  pub message : Message E
  pub pages : List E
  pub messages : List Text
  pub use_embeds : Bool
  pub current_page : ℕ
  pub is_started : Bool
  pub interaction : Bool
  pub skip_first_id : Text
  pub backward_id : Text
  pub forward_id : Text
  pub skip_last_id : Text
  pub trace : List (Event E)

abbrev pub ushort : ℕ
ushort = 2 ^ 16

abbrev pub size_t : ℕ
size_t = 2 ^ 64

-- An id that `std::format` makes of the author, the channel and the paginator's number.
pub button_id : Text → Text → Text
button_id owner action = owner ++ b'_' ∷ action

module _ {E : Type 0} where
  -- The two constructors: `owner` is the author, the channel and the paginator's number, joined.
  unfoldable pub of_embeds : Message E → Text → Bool → Paginator E
  unfolding button_id
  of_embeds message owner interaction = record {
    message = message;
    pages = message.embeds;
    messages = [];
    use_embeds = true;
    current_page = 0;
    is_started = false;
    interaction = interaction;
    skip_first_id = button_id owner (codes "skip_first");
    backward_id = button_id owner (codes "backward");
    forward_id = button_id owner (codes "forward");
    skip_last_id = button_id owner (codes "skip_last");
    trace = [];
  }

  pub of_texts : Message E → List Text → Text → Bool → Paginator E
  unfolding of_embeds
  of_texts message messages owner interaction = record (of_embeds message owner interaction) {
    pages = [];
    messages = messages;
    use_embeds = false;
  }

  unfoldable pub add_embed : E → Paginator E → Result (Paginator E)
  add_embed embed p =
      if p.use_embeds
      then ok (record p { pages = p.pages ++ embed ∷ [] })
      else throw invalid_argument

  unfoldable pub add_text : Text → Paginator E → Result (Paginator E)
  add_text page p =
      if p.use_embeds
      then throw invalid_argument
      else ok (record p { messages = p.messages ++ page ∷ [] })

  unfoldable pub size : Paginator E → ℕ
  size p = if p.use_embeds then length p.pages else length p.messages

  unfoldable pub erase_at : ℕ → List E → List E
  erase_at i [] = []
  erase_at zero (x ∷ xs) = xs
  erase_at (suc i) (x ∷ xs) = x ∷ erase_at i xs

  -- It is always the embeds that are erased from, also where the pages are texts; to erase at or
  -- behind the end is undefined.
  unfoldable pub remove_page : ℕ → Paginator E → Option (Result (Paginator E))
  unfolding size erase_at
  remove_page page p =
      if leb (size p) page
      then some (throw out_of_range)
      else if ltb page (length p.pages)
      then some (ok (record p { pages = erase_at page p.pages }))
      else none

  pub row : Bool → Paginator E → List Button
  row disabled p =
      record { custom_id = p.skip_first_id; disabled = disabled }
      ∷ record { custom_id = p.backward_id; disabled = disabled }
      ∷ record { custom_id = p.forward_id; disabled = disabled }
      ∷ record { custom_id = p.skip_last_id; disabled = disabled }
      ∷ []

  pub with_row : Bool → Paginator E → Message E
  unfolding row
  with_row disabled p = record p.message { buttons = row disabled p }

  -- `start()`: the buttons are put on the message, which is sent.
  pub start : Paginator E → Paginator E
  unfolding with_row
  start p = if p.is_started then p else record p {
    is_started = true;
    message = with_row false p;
    trace =
        (if p.interaction then reply (with_row false p) else message_create (with_row false p))
        ∷ p.trace;
  }

  -- `start(user)`
  pub start_for : ℕ → Paginator E → Paginator E
  unfolding with_row
  start_for user p = if p.is_started then p else record p {
    is_started = true;
    message = with_row false p;
    trace = direct_message user (with_row false p) ∷ p.trace;
  }

  pub edit : Message E → Paginator E → Paginator E
  edit m p = record p {
    message = m;
    trace = (if p.interaction then edit_response m else message_edit m) ∷ p.trace;
  }

  -- The second half of each of the four moves: to index a vector out of bounds is undefined.
  pub show_page : Paginator E → Option (Paginator E)
  unfolding edit
  show_page p =
      if p.use_embeds
      then elim (get_elem? p.pages p.current_page) [
        | none ↦ none
        | some embed ↦ some (edit (record p.message { embeds = embed ∷ [] }) p)
      ]
      else elim (get_elem? p.messages p.current_page) [
        | none ↦ none
        | some text ↦ some (edit (record p.message { content = text }) p)
      ]

  -- `current_page` is a `ushort`, and `%` by zero is undefined.
  pub forward : Paginator E → Option (Paginator E)
  unfolding size show_page
  forward p =
      if size p == 0
      then none
      else show_page (record p { current_page = (p.current_page + 1) % ushort % size p % ushort })

  -- `size() - 1` is taken in `std::size_t`, and cut to a `ushort`.
  pub last_page : Paginator E → ℕ
  unfolding size
  last_page p = (size p + size_t - 1) % size_t % ushort

  pub backward : Paginator E → Option (Paginator E)
  unfolding last_page show_page
  backward p =
      show_page (record p {
        current_page = if p.current_page == 0 then last_page p else p.current_page - 1;
      })

  pub skip_last : Paginator E → Option (Paginator E)
  unfolding last_page show_page
  skip_last p = show_page (record p { current_page = last_page p })

  pub skip_first : Paginator E → Option (Paginator E)
  unfolding show_page
  skip_first p = show_page (record p { current_page = 0 })

  -- The handler that `start` registers.
  pub on_button_click : Text → Paginator E → Option (Paginator E)
  unfolding forward backward skip_first skip_last
  on_button_click custom_id p =
      if text_eq custom_id p.forward_id
      then forward p
      else if text_eq custom_id p.backward_id
      then backward p
      else if text_eq custom_id p.skip_first_id
      then skip_first p
      else if text_eq custom_id p.skip_last_id
      then skip_last p
      else some p

  -- The destructor puts the buttons on the message once more, disabled, and edits it.
  pub destroy : Paginator E → Paginator E
  unfolding with_row edit
  destroy p = edit (with_row true p) p
