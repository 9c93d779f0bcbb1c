-- ===== src/Tokenizer/Pretoken/Bounds.antt =====
-- src/qx_tokenizer.c: how many bytes qx_tok_pretoken_length takes.
use qx_mini_c.Prelude.{
  ℕ, zero, suc, ◌+◌, ◌-◌, ◌≤◌, ◌<◌, ◌≡◌, refl, true, false, List, [], ◌∷◌, Option, none, some, ◌||◌,
  arith, length, length-drop, drop, Option-cases, Bool-cases, ◌⊎◌, inl, inr,
}
use qx_mini_c.Prelude.Results.{ok, Result-cases}
use qx_mini_c.Tokenizer.Utf8.{utf8_next}
use qx_mini_c.Tokenizer.Utf8.Codec.{utf8_next_width}
use qx_mini_c.Tokenizer.Pretoken.{
  Class, letter, number, space, newline, other, unsupported, char_at, suffixes, match_suffix,
  ascii_contract, is_class, run_of, newlines, Blank, pass, blank_run, blank_length, next_char,
  other_chunk, blank_chunk, chunk_rest, plain_length, pretoken_length,
}

char_at_width :
    (s : List ℕ) (k : Class) (w : ℕ) → char_at s ≡ some (k, w) → (0 < w) × (w ≤ length s)
unfolding char_at
char_at_width s k w h = elim (Option-cases (utf8_next s)) [
  | inl bad ↦ ground (arith, h, bad)
  | inr ((cp, width), good) ↦
      let same : w ≡ width = ground (arith, h, good) in
      let (pos, fits) = utf8_next_width s cp width good in
      (omega (arith, same, pos), omega (arith, same, fits))
]

run_of_bounds :
    (k : Class) (fuel : ℕ) (s : List ℕ) (w : ℕ)
    → w ≤ length s
    → (w ≤ run_of k fuel s w) × (run_of k fuel s w ≤ length s)
unfolding run_of
run_of_bounds k zero s w h = omega arith
run_of_bounds k (suc fuel) s w h = elim (Option-cases (char_at (drop w s))) [
  | inl stop ↦ ground (arith, stop, h)
  | inr ((k', w'), next) ↦
      let size = length-drop w s in
      let fits = char_at_width (drop w s) k' w' next in
      let more = run_of_bounds k fuel (drop w s) w' fits.1 in
      ground (arith, next, h, size, fits, more)
]

newlines_le : (fuel : ℕ) (s : List ℕ) → newlines fuel s ≤ length s
unfolding newlines
newlines_le zero s = omega arith
newlines_le (suc fuel) s = elim (Option-cases (char_at s)) [
  | inl stop ↦ ground (arith, stop)
  | inr ((k, w), next) ↦
      let size = length-drop w s in
      ground (arith, next, size, char_at_width s k w next, newlines_le fuel (drop w s))
]

-- What holds of the counts of a run of blanks, `left` bytes before the end of a text of `size`,
-- when it has at least `least` characters.
record IsCounted (size left least : ℕ) (r : Blank) : Type 0 where
  here : r.run_end + left ≤ size
  newline_le : r.newline_end ≤ r.run_end
  unit_le : r.unit_start ≤ r.run_end
  unit_pos : (r.units ≤ 1) ⊎ (0 < r.unit_start)
  end_pos : (r.units ≡ 0) ⊎ (0 < r.run_end)
  many : least ≤ r.units

pass-IsCounted :
    (size left least : ℕ) (k : Class) (w : ℕ) (r : Blank)
    → 0 < w
    → w ≤ left
    → IsCounted size left least r
    → IsCounted size (left - w) (suc least) (pass k w r)
pass-IsCounted size left least k w r pos fits c = ground arith

IsCounted-le :
    (size left least : ℕ) (r : Blank)
    → IsCounted size left (suc least) r
    → IsCounted size left least r
IsCounted-le size left least r c = ground arith

blank_run-IsCounted :
    (fuel size least : ℕ) (s : List ℕ) (k : Class) (w : ℕ) (r : Blank)
    → 0 < w
    → w ≤ length s
    → IsCounted size (length s) least r
    → (left : ℕ) × IsCounted size left least (blank_run fuel s k w r)
unfolding blank_run
blank_run-IsCounted zero size least s k w r pos fits c = (length s, c)
blank_run-IsCounted (suc fuel) size least s k w r pos fits c =
    let c' = pass-IsCounted size (length s) least k w r pos fits c in
    let c'' = IsCounted-le size (length s - w) least (pass k w r) c' in
    elim (Bool-cases (is_class space k || is_class newline k)) [
      | inr stop ↦ rw stop (length s, c)
      | inl blank ↦ elim (Option-cases (char_at (drop w s))) [
        | inl last ↦ rw (blank, last) (length s - w, c'')
        | inr ((k', w'), next) ↦
            let (pos', fits') = char_at_width (drop w s) k' w' next in
            rw (blank, next)
              (blank_run-IsCounted fuel size least (drop w s) k' w' (pass k w r) pos' fits'
                (rw (length-drop w s) c''))
      ]
    ]

blank_run_first :
    (fuel size : ℕ) (s : List ℕ) (k : Class) (w : ℕ) (r : Blank)
    → (is_class space k || is_class newline k) ≡ true
    → 0 < w
    → w ≤ length s
    → IsCounted size (length s) 0 r
    → (left : ℕ) × IsCounted size left 1 (blank_run (suc fuel) s k w r)
unfolding blank_run
blank_run_first fuel size s k w r blank pos fits c =
    let c' = pass-IsCounted size (length s) 0 k w r pos fits c in
    elim (Option-cases (char_at (drop w s))) [
      | inl last ↦ rw (blank, last) (length s - w, c')
      | inr ((k', w'), next) ↦
          let (pos', fits') = char_at_width (drop w s) k' w' next in
          rw (blank, next)
            (blank_run-IsCounted fuel size 1 (drop w s) k' w' (pass k w r) pos' fits'
              (rw (length-drop w s) c'))
    ]

blank_length_bounds :
    (size left : ℕ) (r : Blank)
    → IsCounted size left 1 r
    → (0 < blank_length size r) × (blank_length size r ≤ size)
blank_length_bounds size left r c = ground arith

starts_with_le :
    (xs : List (List ℕ)) (s : List ℕ) (n : ℕ)
    → match_suffix xs s ≡ some n
    → (0 < n) × (n ≤ suc (length s))
unfolding match_suffix
starts_with_le [] s n h = ground (arith, h)
starts_with_le (x ∷ xs) s n h = ground (arith, h, starts_with_le xs s n)

ascii_contract_bounds : (s : List ℕ) (n : ℕ) → ascii_contract s ≡ some n → (0 < n) × (n ≤ length s)
unfolding ascii_contract
ascii_contract_bounds [] n h = ground (arith, h)
ascii_contract_bounds (a ∷ s) n h = ground (arith, h, starts_with_le suffixes s n)

-- A length of a chunk: some of the text, and not more than there is.
abbrev pub IsChunk : List ℕ → ℕ → Type 0
IsChunk s n = (0 < n) × (n ≤ length s)

other_chunk-IsChunk :
    (before : ℕ) (s : List ℕ) (w : ℕ)
    → 0 < w
    → w ≤ length (drop before s)
    → IsChunk s (other_chunk before s w)
unfolding other_chunk
other_chunk-IsChunk before s w pos fits =
    let run = run_of_bounds other (length s) (drop before s) w fits in
    let size = length-drop before s in
    let end = before + run_of other (length s) (drop before s) w in
    let more = newlines_le (length s) (drop end s) in
    let size' = length-drop end s in omega (arith, run, size, more, size')

blank_chunk-IsChunk :
    (s : List ℕ) (k : Class) (w : ℕ)
    → (is_class space k || is_class newline k) ≡ true
    → 0 < w
    → w ≤ length s
    → IsChunk s (blank_chunk s k w)
unfolding blank_chunk
blank_chunk-IsChunk [] k w blank pos fits = absurd (omega arith)
blank_chunk-IsChunk (a ∷ s) k w blank pos fits =
    let start : Blank = record { run_end = 0; newline_end = 0; unit_start = 0; units = 0 } in
    let n : ℕ = suc (length s) in
    let (left, counted) = blank_run_first (length s) n (a ∷ s) k w start blank pos fits (record {
      here = omega arith;
      newline_le = omega arith;
      unit_le = omega arith;
      unit_pos = inl (omega arith);
      end_pos = inl refl;
      many = omega arith;
    }) in
    blank_length_bounds n left (blank_run n (a ∷ s) k w start) counted

next_char_bounds : (s : List ℕ) (k : Class) (w : ℕ) → next_char s ≡ ok (some (k, w)) → IsChunk s w
unfolding next_char
next_char_bounds [] k w h = ground (arith, h)
next_char_bounds (a ∷ s) k w h = elim (Option-cases (char_at (a ∷ s))) [
  | inl bad ↦ ground (arith, h, bad)
  | inr ((k', w'), good) ↦ ground (arith, h, good, char_at_width (a ∷ s) k' w' good)
]

chunk_rest-IsChunk :
    (s : List ℕ) (first : Class) (w : ℕ) (next : Option (Class × ℕ)) (n : ℕ)
    → IsChunk s w
    → ((k : Class) (w' : ℕ) → next ≡ some (k, w') → IsChunk (drop w s) w')
    → chunk_rest s first w next ≡ ok n
    → IsChunk s n
unfolding chunk_rest
chunk_rest-IsChunk s letter w next n c d h = ground (arith, h, c)
chunk_rest-IsChunk s number w next n c d h = ground (arith, h, c)
chunk_rest-IsChunk s newline w next n c d h =
    ground (arith, h, c, blank_chunk-IsChunk s newline w refl)
chunk_rest-IsChunk s other w next n c d h = ground (arith, h, c, other_chunk-IsChunk 0 s w)
chunk_rest-IsChunk s unsupported w next n c d h = ground (arith, h, c)
chunk_rest-IsChunk s space w none n c d h = ground (arith, h, c, blank_chunk-IsChunk s space w refl)
chunk_rest-IsChunk s space w (some (other, w')) n c d h =
    ground
      (arith, h, c, d other w' refl, other_chunk-IsChunk w s w', blank_chunk-IsChunk s space w refl)
chunk_rest-IsChunk s space w (some (letter, w')) n c d h =
    ground (arith, h, c, blank_chunk-IsChunk s space w refl)
chunk_rest-IsChunk s space w (some (number, w')) n c d h =
    ground (arith, h, c, blank_chunk-IsChunk s space w refl)
chunk_rest-IsChunk s space w (some (space, w')) n c d h =
    ground (arith, h, c, blank_chunk-IsChunk s space w refl)
chunk_rest-IsChunk s space w (some (newline, w')) n c d h =
    ground (arith, h, c, blank_chunk-IsChunk s space w refl)
chunk_rest-IsChunk s space w (some (unsupported, w')) n c d h =
    ground (arith, h, c, blank_chunk-IsChunk s space w refl)

next_rest-IsChunk :
    (s : List ℕ) (first : Class) (w n : ℕ)
    → IsChunk s w
    → is_class letter first ≡ false
    → (is_class newline first || is_class number first) ≡ false
    → plain_length s first w ≡ ok n
    → IsChunk s n
unfolding plain_length
next_rest-IsChunk s first w n c not_letter not_end h = elim (Result-cases (next_char (drop w s))) [
  | inl (e, bad) ↦ ground (arith, h, bad)
  | inr (none, last) ↦
      let rest : chunk_rest s first w none ≡ ok n = ground (arith, h, last) in
      chunk_rest-IsChunk s first w none n c (λ k w' e. ground (arith, e)) rest
  | inr (some (letter, w'), more) ↦
      let fits = next_char_bounds (drop w s) letter w' more in
      let run = run_of_bounds letter (length s) (drop w s) w' fits.1 in
      let size = length-drop w s in ground (arith, h, more, c, run, size)
  | inr (some (k, w'), more) ↦
      let rest : chunk_rest s first w (some (k, w')) ≡ ok n = ground (arith, h, more) in
      let fits = next_char_bounds (drop w s) k w' more in
      chunk_rest-IsChunk s first w (some (k, w')) n c (λ k' v e. ground (arith, e, fits)) rest
]

plain_length-IsChunk :
    (s : List ℕ) (first : Class) (w n : ℕ)
    → IsChunk s w
    → plain_length s first w ≡ ok n
    → IsChunk s n
unfolding plain_length
plain_length-IsChunk s letter w n c h = ground (arith, h, c, run_of_bounds letter (length s) s w)
plain_length-IsChunk s newline w n c h =
    chunk_rest-IsChunk s newline w none n c (λ k v e. ground (arith, e)) h
plain_length-IsChunk s number w n c h =
    chunk_rest-IsChunk s number w none n c (λ k v e. ground (arith, e)) h
plain_length-IsChunk s space w n c h = next_rest-IsChunk s space w n c refl refl h
plain_length-IsChunk s other w n c h = next_rest-IsChunk s other w n c refl refl h
plain_length-IsChunk s unsupported w n c h = next_rest-IsChunk s unsupported w n c refl refl h

-- When qx_tok_pretoken_length succeeds on a text, the length that it gives is at least 1 and no more
-- than the text's.
pub pretoken_length-IsChunk : (s : List ℕ) (n : ℕ) → pretoken_length s ≡ ok n → IsChunk s n
unfolding pretoken_length
pretoken_length-IsChunk s n h = elim (Option-cases (char_at s)) [
  | inl bad ↦ ground (arith, h, bad)
  | inr ((first, w), good) ↦
      let c = char_at_width s first w good in
      elim (Option-cases (ascii_contract s)) [
        | inl plain ↦
            let rest : plain_length s first w ≡ ok n = ground (arith, h, good, plain) in
            plain_length-IsChunk s first w n c rest
        | inr (m, contraction) ↦
            ground (arith, h, good, contraction, ascii_contract_bounds s m contraction)
      ]
]
