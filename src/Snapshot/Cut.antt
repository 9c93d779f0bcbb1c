-- ===== src/Snapshot/Cut.antt =====
-- src/qx_format.c: snapshots that are cut short.
use mathlib.Core.Path.{ap₂}
use qx_mini_c.Prelude.Bytes.{IsByte, le32, u32_at, u32_at-le32, same_text, take_bytes}
use qx_mini_c.Prelude.{
  some, ℕ, zero, suc, ◌+◌, ◌≤◌, ◌<◌, ◌≡◌, refl, sym, ap, ◌∙◌, true, false, not, ◌||◌, List, [], ◌∷◌,
  ◌++◌, length, length-append, length-take, length-drop, take-append-drop, take, drop, All,
  All-take, IsU32, ltb, ◌==◌, if◌then◌else◌, arith, Option-cases, Bool-cases, ◌⊎◌, inl, inr,
}
use qx_mini_c.Prelude.Results.{ok, err}
use qx_mini_c.Snapshot.{
  Config, Slot, Restored, header_mismatch, payload_mismatch, slot_order, header_bytes, good_header,
  read_slots, read_snapshot,
}
use qx_mini_c.Snapshot.Header.{good_header_complete, header_bytes-IsHeader}
use qx_mini_c.Snapshot.Print.{slot_bytes, slots_bytes, print_snapshot, body, IsConfig, IsStored}
use qx_mini_c.Snapshot.Read.{IsSnapshot, start_read, read_parts, read_snapshot_sound}
use qx_mini_c.Snapshot.Sha256.Fips.{sha256}
use qx_mini_c.Snapshot.Sha256.Standard.{length-sha256}
use qx_mini_c.Snapshot.Sha256.{final}

length-slot_bytes :
    (cfg : Config) (s : Slot)
    → IsStored cfg s
    → length (slot_bytes s) ≡ cfg.bytes_per_k_or_v + cfg.bytes_per_k_or_v + 8
length-slot_bytes cfg s h =
    let scales = le32 s.k_scale ++ le32 s.v_scale in
    let k = h.k_size in
    let v = h.v_size in
    omega (arith, length-append s.k (s.v ++ scales), length-append s.v scales, k, v)

length-slots_bytes :
    (cfg : Config) (ss ts : List Slot)
    → length ss ≡ length ts
    → All (IsStored cfg) ss
    → All (IsStored cfg) ts
    → length (slots_bytes ss) ≡ length (slots_bytes ts)
length-slots_bytes cfg [] [] e h g = refl
length-slots_bytes cfg [] (t ∷ ts) e h g = absurd (omega (arith, e))
length-slots_bytes cfg (s ∷ ss) [] e h g = absurd (omega (arith, e))
length-slots_bytes cfg (s ∷ ss) (t ∷ ts) e h g =
    length-append (slot_bytes s) (slots_bytes ss)
    ∙ ap₂ ◌+◌ (length-slot_bytes cfg s h.0 ∙ sym (length-slot_bytes cfg t g.0))
        (length-slots_bytes cfg ss ts (omega (arith, e)) h.1 g.1)
    ∙ sym (length-append (slot_bytes t) (slots_bytes ts))

length-framed :
    (head middle digest : List ℕ)
    → length head ≡ 48
    → length digest ≡ 32
    → length ((head ++ middle) ++ digest) ≡ 80 + length middle
length-framed head middle digest h d =
    omega (arith, length-append (head ++ middle) digest, length-append head middle, h, d)

length-print_snapshot :
    (cfg : Config) (positions next_token : ℕ) (ss : List Slot)
    → length (print_snapshot cfg positions next_token ss) ≡ 80 + length (slots_bytes ss)
length-print_snapshot cfg positions next_token ss =
    length-framed (header_bytes cfg positions next_token) (slots_bytes ss)
      (sha256 (body cfg positions next_token ss)) refl
      (length-sha256 (body cfg positions next_token ss))

positions-IsU32 :
    (cfg : Config) (p next : ℕ) (ss : List Slot) → IsConfig cfg → IsSnapshot cfg p next ss → IsU32 p
positions-IsU32 cfg p next ss h g =
    let word = h.ctx_tokens in let fits = g.fits in omega (arith, word, fits)

-- No snapshot is a proper prefix of another.
prefix_whole :
    (cfg : Config) (p q next next' : ℕ) (ss ts : List Slot) (more : List ℕ)
    → IsConfig cfg
    → IsSnapshot cfg p next ss
    → IsSnapshot cfg q next' ts
    → print_snapshot cfg p next ss ++ more ≡ print_snapshot cfg q next' ts
    → length more ≡ 0
prefix_whole cfg p q next next' ss ts more h g k e =
    let whole = print_snapshot cfg q next' ts in
    let part = print_snapshot cfg p next ss in
    let at_p : u32_at (drop 16 (part ++ more)) ≡ p =
      u32_at-le32 p (drop 20 (part ++ more)) (positions-IsU32 cfg p next ss h g) in
    let at_q : u32_at (drop 16 whole) ≡ q =
      u32_at-le32 q (drop 20 whole) (positions-IsU32 cfg q next' ts h k) in
    let same : p ≡ q = sym at_p ∙ ap (λ s. u32_at (drop 16 s)) e ∙ at_q in
    let count : length ss ≡ length ts =
      g.size ∙ ap (λ n. length (slot_order cfg n)) same ∙ sym k.size in
    let slots = length-slots_bytes cfg ss ts count g.stored k.stored in
    let part_size = length-print_snapshot cfg p next ss in
    let whole_size = length-print_snapshot cfg q next' ts in
    omega (arith, slots, part_size, whole_size, sym (length-append part more) ∙ ap length e)

take-take : (m n : ℕ) (s : List ℕ) → m ≤ n → take m (take n s) ≡ take m s
take-take zero n s h = refl
take-take (suc m) zero s h = absurd (omega (arith, h))
take-take (suc m) (suc n) [] h = refl
take-take (suc m) (suc n) (b ∷ s) h = ap (◌∷◌ b) (take-take m n s (omega (arith, h)))

-- After a good header, a read fails in the payload or succeeds.
after_header :
    (cfg : Config) (cache : List Slot) (file : List ℕ)
    → 48 ≤ length file
    → good_header cfg (take 48 file) ≡ true
    → (read_snapshot cfg cache file ≡ err payload_mismatch)
      ⊎ ((r : Restored) × (read_snapshot cfg cache file ≡ ok r))
unfolding read_snapshot
after_header cfg cache file size good =
    let head = take 48 file in
    let there : ltb (length file) 48 ≡ false = ground (arith, size) in
    let cut : take_bytes 48 file ≡ some (head, drop 48 file) = rw there refl in
    elim (Option-cases (
      read_slots cfg (slot_order cfg (u32_at (drop 16 head)))
        (start_read cache head (drop 48 file)))) [
          | inl bad ↦ inl (rw (cut, good, bad, read_snapshot) refl)
          | inr (r, e3) ↦ elim (Option-cases (take_bytes 32 r.rest)) [
            | inl bad ↦ inl (rw (cut, good, e3, bad, read_snapshot) refl)
            | inr ((expected, over), e4) ↦
                let parts =
                  read_parts cfg cache file head (drop 48 file) expected over r cut good e3 e4 in
                let found : Restored = record {
                  cache = r.cache;
                  positions = u32_at (drop 16 head);
                  next_token = u32_at (drop 40 head);
                } in
                elim (Bool-cases
                  (not (same_text expected (final r.hash)) || not (length over == 0))) [
                    | inl bad ↦
                        inl (parts ∙ ap (λ b. if b then err payload_mismatch else ok found) bad)
                    | inr last ↦
                        inr (
                          found,
                          parts ∙ ap (λ b. if b then err payload_mismatch else ok found) last,
                        )
                  ]
          ]
        ]

no_header :
    (cfg : Config) (cache : List Slot) (file : List ℕ)
    → length file < 48
    → read_snapshot cfg cache file ≡ err header_mismatch
unfolding read_snapshot
no_header cfg cache file short =
    let none_there : ltb (length file) 48 ≡ true = ground (arith, short) in
    rw (none_there, read_snapshot) refl

-- With a configuration of 32-bit numbers, a proper prefix of a file of bytes that is read is
-- refused: with the error of the header below 48 bytes, and with that of the payload from there
-- on.
pub read_snapshot-take :
    (cfg : Config) (cache : List Slot) (file : List ℕ) (restored : Restored) (n : ℕ)
    → IsConfig cfg
    → All IsByte file
    → read_snapshot cfg cache file ≡ ok restored
    → n < length file
    → read_snapshot cfg cache (take n file)
      ≡ err (if ltb n 48 then header_mismatch else payload_mismatch)
read_snapshot-take cfg cache file restored n h all e short =
    let (ss, done) = read_snapshot_sound cfg cache file restored all e in
    let g = done.made in
    elim (Bool-cases (ltb n 48)) [
      | inl few ↦
          let size : length (take n file) < 48 = ground (arith, few, length-take n file) in
          no_header cfg cache (take n file) size ∙ rw few refl
      | inr enough ↦
          let many : 48 ≤ n = ground (arith, enough) in
          let size : 48 ≤ length (take n file) = omega (arith, many, short, length-take n file) in
          let head : take 48 (take n file)
              ≡ header_bytes cfg restored.positions restored.next_token =
            take-take 48 n file many ∙ ap (take 48) done.bytes in
          let good =
            ap (good_header cfg) head
            ∙ good_header_complete cfg (header_bytes cfg restored.positions restored.next_token)
                restored.positions restored.next_token
                (header_bytes-IsHeader cfg restored.positions restored.next_token h g.some_positions
                  g.fits g.token) in
          elim (after_header cfg cache (take n file) size good) [
            | inl bad ↦ bad ∙ rw enough refl
            | inr (r, read) ↦
                let (ts, part) =
                  read_snapshot_sound cfg cache (take n file) r (All-take IsByte n file all) read in
                let split =
                  ap (λ s. s ++ drop n file) (sym part.bytes)
                  ∙ take-append-drop n file
                  ∙ done.bytes in
                let nothing =
                  prefix_whole cfg r.positions restored.positions r.next_token restored.next_token
                    ts ss (drop n file) h part.made g split in
                absurd (omega (arith, nothing, short, length-drop n file))
          ]
    ]
