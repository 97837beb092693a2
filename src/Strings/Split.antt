-- ===== src/Strings/Split.antt =====
-- `split` of src/cogs/core/strings.h cuts at the delimiter.
use reactaio.Prelude.{
  ℕ, ◌≡◌, ◌≢◌, refl, true, not, List, [], ◌∷◌, ◌++◌, ◌==◌, Text, arith, all, append_assoc,
  append-nil, ◌⊎◌, inl, inr,
}
use reactaio.Strings.{split, split_at}

-- A byte `d` is not in the text.
abbrev pub Lacks : ℕ → Text → Type 0
Lacks d s = all (λ c. not (c == d)) s ≡ true

split_at-Lacks :
    (d : ℕ) (w t word : Text)
    → Lacks d w
    → split_at d (w ++ d ∷ t) word ≡ (word ++ w) ∷ split_at d t []
unfolding split_at
split_at-Lacks d [] t word h = ground (arith, append-nil word)
split_at-Lacks d (c ∷ w) t word h =
    ground (arith, split_at-Lacks d w t (word ++ c ∷ []), append_assoc word (c ∷ []) w)

split_at_end : (d : ℕ) (w word : Text) → Lacks d w → split_at d w word ≡ (word ++ w) ∷ []
unfolding split_at
split_at_end d [] word h = ground (arith, append-nil word)
split_at_end d (c ∷ w) word h =
    ground (arith, split_at_end d w (word ++ c ∷ []), append_assoc word (c ∷ []) w)

-- What follows a word in the text: nothing, or a delimiter and more.
abbrev pub Follows : ℕ → Text → Type 0
Follows d t = (t ≡ []) ⊎ ((u : Text) × (t ≡ d ∷ u))

split-split_at : (d : ℕ) (s : Text) → s ≢ [] → split s d ≡ split_at d s []
unfolding split
split-split_at d [] h = absurd (h refl)
split-split_at d (c ∷ s) h = refl

split_at_word :
    (d : ℕ) (w t : Text)
    → Lacks d w
    → Follows d t
    → (more : List Text) × (split_at d (w ++ t) [] ≡ w ∷ more)
split_at_word d w t h (inl e) = ([], rw (e, append-nil) (split_at_end d w [] h))
split_at_word d w t h (inr (u, e)) = (split_at d u [], rw e (split_at-Lacks d w u [] h))

-- A text that begins with two words, a delimiter between them and nothing or another delimiter
-- behind them, is split into these two and more; the first word is not empty.
pub split_two :
    (d : ℕ) (w x t : Text)
    → w ≢ []
    → Lacks d w
    → Lacks d x
    → Follows d t
    → (more : List Text) × (split (w ++ d ∷ (x ++ t)) d ≡ w ∷ x ∷ more)
split_two d [] x t n h k f = absurd (n refl)
split_two d (c ∷ w) x t n h k f =
    let (more, e) = split_at_word d x t k f in
    (
      more,
      rw (
        split-split_at d ((c ∷ w) ++ d ∷ (x ++ t)) (λ e. cc),
        split_at-Lacks d (c ∷ w) (x ++ t) [] h,
        e,
      ),
    )
