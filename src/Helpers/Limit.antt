-- ===== src/Helpers/Limit.antt =====
-- What `join_with_limit` of src/cogs/core/helpers.cpp returns.
use mathlib.Core.List.{flatten}
use reactaio.Prelude.{
  ℕ, zero, suc, ◌+◌, ◌*◌, ◌≤◌, ◌<◌, ◌≡◌, refl, List, [], ◌∷◌, ◌++◌, leb, if◌then◌else◌, length,
  Text, All, All-append, arith, append_assoc, append-nil, length-append, ap, ◌∙◌,
}
use reactaio.Prelude.{sym, Bool-cases, leb→le, inl, inr}
use reactaio.Helpers.{no_chunks, Chunks, add_string, join_limit_loop, join_with_limit, newline}

-- The strings that fit the limit, each on a line of its own.
pub lines : ℕ → List Text → Text
lines limit [] = []
lines limit (s ∷ v) = (if leb (length s) limit then s ++ newline ∷ [] else []) ++ lines limit v

flatten-append : (xs ys : List Text) → flatten (xs ++ ys) ≡ flatten xs ++ flatten ys
unfolding flatten
flatten-append [] ys = refl
flatten-append (x ∷ xs) ys = simp (flatten-append xs ys, append_assoc)

flatten-snoc : (xs : List Text) (y : Text) → flatten (xs ++ y ∷ []) ≡ flatten xs ++ y
unfolding flatten
flatten-snoc xs y = flatten-append xs (y ∷ []) ∙ ap (◌++◌ (flatten xs)) (append-nil y)

abbrev written : Chunks → Text
written c = flatten c.result ++ c.to_send

written-add_string :
    (limit : ℕ) (s : Text) (c : Chunks)
    → written (add_string limit s c)
      ≡ written c ++ (if leb (length s) limit then s ++ newline ∷ [] else [])
unfolding add_string
written-add_string limit s c = ground (
  arith,
  flatten-snoc c.result c.to_send,
  append_assoc (flatten c.result) c.to_send (s ++ newline ∷ []),
  append-nil (flatten c.result ++ c.to_send),
)

join_limit_loop-lines :
    (limit : ℕ) (s : Text) (v : List Text) (c : Chunks)
    → flatten (join_limit_loop limit (s ∷ v) c).result ≡ written c ++ lines limit (s ∷ v)
unfolding join_limit_loop lines
join_limit_loop-lines limit s [] c =
    rw (flatten-snoc, written-add_string limit s c) (simp append-nil)
join_limit_loop-lines limit s (t ∷ v) c =
    rw (join_limit_loop-lines limit t v (add_string limit s c), written-add_string limit s c)
      (simp append_assoc)

-- The chunks in a row are the strings that fit the limit, in order, each with its newline: nothing
-- else is lost, and longer strings are left out.
pub join_with_limit-lines :
    (v : List Text) (limit : ℕ) → flatten (join_with_limit v limit) ≡ lines limit v
unfolding join_with_limit lines flatten
join_with_limit-lines [] limit = refl
join_with_limit-lines (s ∷ v) limit = join_limit_loop-lines limit s v no_chunks

pub total : List Text → ℕ
total [] = 0
total (s ∷ g) = length s + total g

pub block : List Text → Text
block [] = []
block (s ∷ g) = s ++ newline ∷ block g

-- A chunk of lines whose strings together, newlines not counted, fit the limit.
abbrev pub Fits : ℕ → Text → Type 0
Fits limit chunk = (g : List Text) × (chunk ≡ block g) × (total g ≤ limit)

block-append : (g h : List Text) → block (g ++ h) ≡ block g ++ block h
unfolding block
block-append [] h = refl
block-append (s ∷ g) h = simp (block-append g h, append_assoc)

block_snoc : (g : List Text) (s : Text) → block (g ++ s ∷ []) ≡ block g ++ (s ++ newline ∷ [])
unfolding block
block_snoc g s = block-append g (s ∷ [])

total-append : (g h : List Text) → total (g ++ h) ≡ total g + total h
unfolding total
total-append [] h = omega arith
total-append (s ∷ g) h = omega (arith, total-append g h)

total_one : (s : Text) → total (s ∷ []) ≡ length s
unfolding total
total_one s = omega arith

-- The pending chunk fits, at the size that is counted, and so do the finished ones.
record Inv (limit : ℕ) (c : Chunks) : Type 0 where
  finished : All (Fits limit) c.result
  group : List Text
  pending : c.to_send ≡ block group
  counted : c.current_size ≡ total group
  fits : total group ≤ limit

add_string-Inv :
    (limit : ℕ) (s : Text) (c : Chunks) → Inv limit c → Inv limit (add_string limit s c)
unfolding add_string
add_string-Inv limit s c v = elim (Bool-cases (leb (length s + c.current_size + 1) limit)) [
  | inl e ↦ rw e (record {
    finished = v.finished;
    group = v.group ++ s ∷ [];
    pending = ap (λ t. t ++ (s ++ newline ∷ [])) v.pending ∙ sym (block_snoc v.group s);
    counted = omega (arith, total-append v.group (s ∷ []), total_one s, v.counted);
    fits = omega (arith, total-append v.group (s ∷ []), total_one s, v.counted, leb→le _ _ e);
  })
  | inr e ↦ elim (Bool-cases (leb (length s) limit)) [
    | inl f ↦
        rw (e, f)
          (record {
            finished =
                All-append (Fits limit) c.result (c.to_send ∷ []) v.finished
                  ((v.group, v.pending, v.fits), tt);
            group = s ∷ [];
            pending = unfold block in refl;
            counted = omega (arith, total_one s);
            fits = omega (arith, total_one s, leb→le _ _ f);
          })
    | inr f ↦ rw (e, f) v
  ]
]

join_limit_loop-Fits :
    (limit : ℕ) (s : Text) (v : List Text) (c : Chunks)
    → Inv limit c
    → All (Fits limit) (join_limit_loop limit (s ∷ v) c).result
unfolding join_limit_loop
join_limit_loop-Fits limit s [] c h =
    let h' = add_string-Inv limit s c h in
    All-append (Fits limit) (add_string limit s c).result _ h'.finished
      ((h'.group, h'.pending, h'.fits), tt)
join_limit_loop-Fits limit s (t ∷ v) c h =
    join_limit_loop-Fits limit t v (add_string limit s c) (add_string-Inv limit s c h)

-- Every chunk is made of whole strings that together fit the limit, their newlines not counted.
pub join_with_limit-Fits : (v : List Text) (limit : ℕ) → All (Fits limit) (join_with_limit v limit)
unfolding join_with_limit block total
join_with_limit-Fits [] limit = tt
join_with_limit-Fits (s ∷ v) limit =
    join_limit_loop-Fits limit s v no_chunks
      (record { finished = tt; group = []; pending = refl; counted = refl; fits = omega arith })

-- `n` copies of a string of one byte.
pub bytes : ℕ → ℕ → List Text
bytes zero c = []
bytes (suc n) c = (c ∷ []) ∷ bytes n c

add_byte :
    (b limit : ℕ) (c : Chunks)
    → c.result ≡ []
    → c.current_size + 2 ≤ limit
    → ((add_string limit (b ∷ []) c).result ≡ [])
      × ((add_string limit (b ∷ []) c).current_size ≡ c.current_size + 1)
      × (length (add_string limit (b ∷ []) c).to_send ≡ length c.to_send + 2)
unfolding add_string
add_byte b limit c e h = ground (arith, length-append c.to_send (b ∷ newline ∷ []))

bytes_loop :
    (n b limit : ℕ) (c : Chunks)
    → c.result ≡ []
    → c.current_size + n + 2 ≤ limit
    → (chunk : Text) × ((join_limit_loop limit (bytes (suc n) b) c).result ≡ chunk ∷ [])
      × (length chunk ≡ length c.to_send + 2 * (n + 1))
unfolding join_limit_loop bytes add_string
bytes_loop zero b limit c e h = (
  c.to_send ++ b ∷ newline ∷ [],
  ground arith,
  omega (arith, length-append c.to_send (b ∷ newline ∷ [])),
)
bytes_loop (suc n) b limit c e h =
    let (e', counted, size) = add_byte b limit c e (omega arith) in
    let (chunk, run, long) = bytes_loop n b limit (add_string limit (b ∷ []) c) e' (omega arith) in
    (chunk, run, omega arith)

-- The newlines are not counted, so a chunk can outgrow the limit: `n` strings of one byte make one
-- chunk of `2 * n` bytes under a limit of `n + 1`, for `n` above 1.
pub join_with_limit_overflow :
    (n b : ℕ)
    → 1 < n
    → (chunk : Text) × (join_with_limit (bytes n b) (n + 1) ≡ chunk ∷ [])
      × (length chunk ≡ 2 * n)
      × (n + 1 < length chunk)
unfolding join_with_limit
join_with_limit_overflow zero b h = absurd (omega arith)
join_with_limit_overflow (suc n) b h =
    let (chunk, run, size) = bytes_loop n b (suc n + 1) no_chunks refl (omega arith) in
    (chunk, run, omega arith, omega arith)
