-- ===== src/Snapshot/Sha256/Stream.antt =====
-- src/qx_format.c: qx_kv_sha256_update, against the bytes taken in one by one.
use mathlib.Core.List.{append_assoc, append-nil}
use qx_mini_c.Prelude.{
  ℕ, zero, suc, ◌+◌, ◌*◌, ◌%◌, ◌≤◌, ◌<◌, ◌≡◌, refl, sym, ap, ◌∙◌, true, false, List, [], ◌∷◌, ◌++◌,
  ◌==◌, if◌then◌else◌, length, take, drop, length-append, length-take, length-drop,
  take-append-drop, Bool-cases, inl, inr, arith, u64_mod, add64,
}
use qx_mini_c.Snapshot.Sha256.{Sha, transform, piece_size, put_piece, update_loop, update}

-- One byte: a block that is full is taken in.
abbrev pub feed : Sha → ℕ → Sha
feed ctx x =
    if length ctx.block == 63
    then record ctx { state = transform ctx.state (ctx.block ++ x ∷ []); block = [] }
    else record ctx { block = ctx.block ++ x ∷ [] }

unfoldable pub feed_all : Sha → List ℕ → Sha
feed_all ctx [] = ctx
feed_all ctx (x ∷ xs) = feed_all (feed ctx x) xs

pub feed_all-append :
    (ctx : Sha) (xs ys : List ℕ) → feed_all ctx (xs ++ ys) ≡ feed_all (feed_all ctx xs) ys
unfolding feed_all
feed_all-append ctx [] ys = refl
feed_all-append ctx (x ∷ xs) ys = feed_all-append (feed ctx x) xs ys

-- A byte that does not fill the block, and one that does.
feed-short :
    (ctx : Sha) (x : ℕ)
    → length ctx.block < 63
    → feed ctx x ≡ record ctx { block = ctx.block ++ x ∷ [] }
feed-short ctx x h =
    let test : (length ctx.block == 63) ≡ false = ground (arith, h) in rw (test, feed) refl

feed-full :
    (ctx : Sha) (x : ℕ)
    → length ctx.block ≡ 63
    → feed ctx x ≡ record ctx { state = transform ctx.state (ctx.block ++ x ∷ []); block = [] }
feed-full ctx x h =
    let test : (length ctx.block == 63) ≡ true = ground (arith, h) in rw (test, feed) refl

grown : (block : List ℕ) (x : ℕ) (xs : List ℕ) → (block ++ x ∷ []) ++ xs ≡ block ++ x ∷ xs
grown block x xs = append_assoc block (x ∷ []) xs

-- Bytes that do not fill the block.
pub feed_all-short :
    (ctx : Sha) (xs : List ℕ)
    → length ctx.block + length xs < 64
    → feed_all ctx xs ≡ record ctx { block = ctx.block ++ xs }
unfolding feed_all
feed_all-short ctx [] h = ap (λ b. record ctx { block = b }) (sym (append-nil ctx.block))
feed_all-short ctx (x ∷ xs) h =
    let next : Sha = record ctx { block = ctx.block ++ x ∷ [] } in
    let size = length-append ctx.block (x ∷ []) in
    ap (λ c. feed_all c xs) (feed-short ctx x (omega (arith, h)))
    ∙ feed_all-short next xs (omega (arith, h, size))
    ∙ ap (λ b. record ctx { block = b }) (grown ctx.block x xs)

-- Bytes that fill the block.
pub feed_all-full :
    (ctx : Sha) (xs : List ℕ)
    → length ctx.block + length xs ≡ 64
    → length ctx.block < 64
    → feed_all ctx xs ≡ record ctx { state = transform ctx.state (ctx.block ++ xs); block = [] }
unfolding feed_all
feed_all-full ctx [] h room = absurd (omega (arith, h, room))
feed_all-full ctx (x ∷ []) h room = feed-full ctx x (omega (arith, h))
feed_all-full ctx (x ∷ y ∷ xs) h room =
    let next : Sha = record ctx { block = ctx.block ++ x ∷ [] } in
    let size = length-append ctx.block (x ∷ []) in
    ap (λ c. feed_all c (y ∷ xs)) (feed-short ctx x (omega (arith, h)))
    ∙ feed_all-full next (y ∷ xs) (omega (arith, h, size)) (omega (arith, h, size))
    ∙ ap (λ b. record ctx { state = transform ctx.state b; block = [] })
        (grown ctx.block x (y ∷ xs))

put_piece-feed_all :
    (ctx : Sha) (xs : List ℕ)
    → length ctx.block < 64
    → length ctx.block + length xs ≤ 64
    → put_piece ctx xs ≡ feed_all ctx xs
unfolding put_piece
put_piece-feed_all ctx xs room fits = elim (Bool-cases (length (ctx.block ++ xs) == 64)) [
  | inl full ↦
      let size : length ctx.block + length xs ≡ 64 =
        ground (arith, full, length-append ctx.block xs) in
      rw (full, put_piece) (sym (feed_all-full ctx xs size room))
  | inr short ↦
      let size : length ctx.block + length xs < 64 =
        ground (arith, short, fits, length-append ctx.block xs) in
      rw (short, put_piece) (sym (feed_all-short ctx xs size))
]

put_piece-room :
    (ctx : Sha) (xs : List ℕ)
    → length ctx.block + length xs ≤ 64
    → length (put_piece ctx xs).block < 64
unfolding put_piece
put_piece-room ctx xs fits = elim (Bool-cases (length (ctx.block ++ xs) == 64)) [
  | inl full ↦ rw (full, put_piece) (omega arith)
  | inr short ↦ rw (short, put_piece) (ground (arith, short, fits, length-append ctx.block xs))
]

-- A round takes a byte or more, and no more than there is room for.
piece_size_bounds :
    (ctx : Sha) (n : ℕ)
    → length ctx.block < 64
    → 0 < n
    → (0 < piece_size ctx n) × (piece_size ctx n ≤ n) × (length ctx.block + piece_size ctx n ≤ 64)
piece_size_bounds ctx n room pos = ground (arith, room, pos)

-- The loop is the bytes one after the other.
update_loop-feed_all :
    (fuel : ℕ) (ctx : Sha) (xs : List ℕ)
    → length ctx.block < 64
    → length xs ≤ fuel
    → update_loop fuel ctx xs ≡ feed_all ctx xs
unfolding update_loop feed_all
update_loop-feed_all zero ctx [] room enough = refl
update_loop-feed_all zero ctx (x ∷ xs) room enough = absurd (omega (arith, enough))
update_loop-feed_all (suc fuel) ctx [] room enough = refl
update_loop-feed_all (suc fuel) ctx (x ∷ xs) room enough =
    let n = piece_size ctx (length (x ∷ xs)) in
    let piece = take n (x ∷ xs) in
    let rest = drop n (x ∷ xs) in
    let (pos, le, fits) = piece_size_bounds ctx (length (x ∷ xs)) room (omega arith) in
    let size : length ctx.block + length piece ≤ 64 =
      omega (arith, fits, le, length-take n (x ∷ xs)) in
    let shorter : length rest ≤ fuel = omega (arith, enough, pos, le, length-drop n (x ∷ xs)) in
    update_loop-feed_all fuel (put_piece ctx piece) rest (put_piece-room ctx piece size) shorter
    ∙ ap (λ c. feed_all c rest) (put_piece-feed_all ctx piece room size)
    ∙ sym (feed_all-append ctx piece rest)
    ∙ ap (feed_all ctx) (take-append-drop n (x ∷ xs))

pub update-feed_all :
    (ctx : Sha) (xs : List ℕ)
    → length ctx.block < 64
    → update ctx xs
      ≡ feed_all (record ctx { bit_count = add64 ctx.bit_count (length xs * 8 % u64_mod) }) xs
unfolding update
update-feed_all ctx xs room =
    update_loop-feed_all (length xs)
      (record ctx { bit_count = add64 ctx.bit_count (length xs * 8 % u64_mod) }) xs room
      (omega arith)

-- The bytes do not touch the count of bits, which an update adds to first.
feed-bit_count :
    (ctx : Sha) (n x : ℕ)
    → feed (record ctx { bit_count = n }) x ≡ record (feed ctx x) { bit_count = n }
feed-bit_count ctx n x = elim (Bool-cases (length ctx.block == 63)) [
  | inl full ↦ rw (full, feed) refl
  | inr short ↦ rw (short, feed) refl
]

pub feed_all-bit_count :
    (ctx : Sha) (n : ℕ) (xs : List ℕ)
    → feed_all (record ctx { bit_count = n }) xs ≡ record (feed_all ctx xs) { bit_count = n }
unfolding feed_all
feed_all-bit_count ctx n [] = refl
feed_all-bit_count ctx n (x ∷ xs) =
    ap (λ c. feed_all c xs) (feed-bit_count ctx n x) ∙ feed_all-bit_count (feed ctx x) n xs

feed-length :
    (ctx : Sha) (x : ℕ)
    → length ctx.block < 64
    → length (feed ctx x).block ≡ (length ctx.block + 1) % 64
feed-length ctx x room = elim (Bool-cases (length ctx.block == 63)) [
  | inl full ↦ rw (full, feed) (ground (arith, full))
  | inr short ↦ rw (short, feed) (ground (arith, short, room, length-append ctx.block (x ∷ [])))
]

pub feed_all-length :
    (ctx : Sha) (xs : List ℕ)
    → length ctx.block < 64
    → length (feed_all ctx xs).block ≡ (length ctx.block + length xs) % 64
unfolding feed_all
feed_all-length ctx [] room = omega (arith, room)
feed_all-length ctx (x ∷ xs) room =
    let one = feed-length ctx x room in
    omega (arith, one, feed_all-length (feed ctx x) xs (omega (arith, one)))
