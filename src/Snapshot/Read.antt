-- ===== src/Snapshot/Read.antt =====
-- src/qx_format.c: what qx_read_accumulated_kv_snapshot accepts, and what it reads.
use mathlib.Core.List.{append_assoc, append-nil}
use mathlib.Core.Path.{ap₂, subst}
use qx_mini_c.Prelude.Bytes.{
  IsByte, same_text, same_text_sound, same_text_refl, u32_at, u32_at-IsU32, take_bytes,
  take_bytes-append, take_bytes_sound,
}
use qx_mini_c.Prelude.{
  ℕ, ◌≤◌, ◌<◌, ◌≡◌, refl, sym, ap, ◌∙◌, Bool, true, false, ◌||◌, not, List, [], ◌∷◌, ◌++◌, length,
  All, All-left, All-right, All-drop, IsU32, ◌==◌, if◌then◌else◌, arith, some, Option-cases,
  Bool-cases, inl, inr, drop, ◌↔◌,
}
use qx_mini_c.Prelude.Results.{Result, ok, err}
use qx_mini_c.Snapshot.{
  Config, Slot, Reader, Restored, Error, slot_order, header_bytes, good_header, read_slots,
  read_snapshot, payload_mismatch,
}
use qx_mini_c.Snapshot.Header.{
  IsHeader, good_header_complete, good_header_sound, header_bytes-IsHeader, IsHeader-header_bytes,
}
use qx_mini_c.Snapshot.Print.{slots_bytes, body, print_snapshot, IsConfig, IsStored, store}
use qx_mini_c.Snapshot.Sha256.{sha_init, update, final}
use qx_mini_c.Snapshot.Sha256.Fips.{sha256}
use qx_mini_c.Snapshot.Sha256.Standard.{
  HasTaken, init-HasTaken, update-HasTaken, final-sha256, length-sha256,
}
use qx_mini_c.Snapshot.Slots.{hash_slots, hash_slots-HasTaken, read_slots-print, read_slots_sound}

abbrev pub start_read : List Slot → List ℕ → List ℕ → Reader
start_read cache header rest = record { cache = cache; hash = update sha_init header; rest = rest }

-- What a read comes to, once its parts are there.
pub read_parts :
    (cfg : Config) (cache : List Slot) (file header rest expected over : List ℕ) (r : Reader)
    → take_bytes 48 file ≡ some (header, rest)
    → good_header cfg header ≡ true
    → read_slots cfg (slot_order cfg (u32_at (drop 16 header))) (start_read cache header rest)
      ≡ some r
    → take_bytes 32 r.rest ≡ some (expected, over)
    → read_snapshot cfg cache file ≡ (
        if not (same_text expected (final r.hash)) || not (length over == 0)
        then err payload_mismatch
        else ok (record {
          cache = r.cache;
          positions = u32_at (drop 16 header);
          next_token = u32_at (drop 40 header);
        }))
unfolding read_snapshot
read_parts cfg cache file header rest expected over r e1 e2 e3 e4 =
    rw (e1, e2, e3, e4, read_snapshot) refl

-- The hash of the header and the slots is the digest of the body.
body_digest :
    (cfg : Config) (positions next_token : ℕ) (ss : List Slot)
    → final (hash_slots (update sha_init (header_bytes cfg positions next_token)) ss)
      ≡ sha256 (body cfg positions next_token ss)
body_digest cfg positions next_token ss =
    let head = header_bytes cfg positions next_token in
    let first : HasTaken (update sha_init head) head =
      update-HasTaken sha_init [] head init-HasTaken in
    final-sha256 (hash_slots (update sha_init head) ss) (body cfg positions next_token ss)
      (hash_slots-HasTaken (update sha_init head) head ss first)

-- What a file has to be made of to be read.
pub record IsSnapshot (cfg : Config) (positions next_token : ℕ) (ss : List Slot) : Type 0 where
  pub some_positions : 0 < positions
  pub fits : positions ≤ cfg.ctx_tokens
  pub token : IsU32 next_token
  pub size : length ss ≡ length (slot_order cfg positions)
  pub stored : All (IsStored cfg) ss

take_digest : (xs ys : List ℕ) (n : ℕ) → length xs ≡ n → take_bytes n (xs ++ ys) ≡ some (xs, ys)
take_digest xs ys n e =
    subst (λ m. take_bytes m (xs ++ ys) ≡ some (xs, ys)) e (take_bytes-append xs ys)

-- A header with these fields, the slots and their digest are read.
accepted :
    (cfg : Config) (cache : List Slot) (head digest : List ℕ) (positions next_token : ℕ)
    (ss : List Slot)
    → length head ≡ 48
    → IsHeader cfg head positions next_token
    → IsSnapshot cfg positions next_token ss
    → length digest ≡ 32
    → final (hash_slots (update sha_init head) ss) ≡ digest
    → read_snapshot cfg cache (head ++ (slots_bytes ss ++ digest))
      ≡ ok (record {
        cache = store (slot_order cfg positions) ss cache;
        positions = positions;
        next_token = next_token;
      })
accepted cfg cache head digest positions next_token ss size h g digest_length hashed =
    let rest = slots_bytes ss ++ digest in
    let at : slot_order cfg (u32_at (drop 16 head)) ≡ slot_order cfg positions =
      ap (slot_order cfg) h.positions in
    let r : Reader = record {
      cache = store (slot_order cfg positions) ss cache;
      hash = hash_slots (update sha_init head) ss;
      rest = digest;
    } in
    let read =
      ap (λ slots. read_slots cfg slots (start_read cache head rest)) at
      ∙ read_slots-print cfg (slot_order cfg positions) ss cache (update sha_init head) digest
          g.size g.stored in
    let last : take_bytes 32 digest ≡ some (digest, []) =
      ap (take_bytes 32) (sym (append-nil digest)) ∙ take_digest digest [] 32 digest_length in
    let whole =
      read_parts cfg cache (head ++ rest) head rest digest [] r (take_digest head rest 48 size)
        (good_header_complete cfg head positions next_token h) read last in
    let same : same_text digest (final r.hash) ≡ true =
      ap (same_text digest) hashed ∙ same_text_refl digest in
    let done : ℕ → ℕ → Result Error Restored =
      λ p n. ok (record { cache = r.cache; positions = p; next_token = n }) in
    let found = done (u32_at (drop 16 head)) (u32_at (drop 40 head)) in
    whole
    ∙ ap (λ b. if not b || false then err payload_mismatch else found) same
    ∙ ap₂ done h.positions h.next

pub read_snapshot-print :
    (cfg : Config) (cache : List Slot) (positions next_token : ℕ) (ss : List Slot)
    → IsConfig cfg
    → IsSnapshot cfg positions next_token ss
    → read_snapshot cfg cache (print_snapshot cfg positions next_token ss)
      ≡ ok (record {
        cache = store (slot_order cfg positions) ss cache;
        positions = positions;
        next_token = next_token;
      })
read_snapshot-print cfg cache positions next_token ss h g =
    let head = header_bytes cfg positions next_token in
    let digest = sha256 (body cfg positions next_token ss) in
    ap (read_snapshot cfg cache) (append_assoc head (slots_bytes ss) digest)
    ∙ accepted cfg cache head digest positions next_token ss refl
        (header_bytes-IsHeader cfg positions next_token h g.some_positions g.fits g.token) g
        (length-sha256 (body cfg positions next_token ss)) (body_digest cfg positions next_token ss)

-- What a file that is read has given.
pub record HasRead (cfg : Config) (cache : List Slot) (file : List ℕ) (restored : Restored)
    (ss : List Slot) : Type 0 where
  pub made : IsSnapshot cfg restored.positions restored.next_token ss
  pub bytes : file ≡ print_snapshot cfg restored.positions restored.next_token ss
  pub slots : restored.cache ≡ store (slot_order cfg restored.positions) ss cache

found_or : Restored → Result Error Restored → Restored
found_or d (ok r) = r
found_or d (err x) = d

is_ok : Result Error Restored → Bool
is_ok (ok r) = true
is_ok (err x) = false

last_test :
    (a b : Bool) (found restored : Restored)
    → (if not a || not b then err payload_mismatch else ok found) ≡ ok restored
    → (a ≡ true) × (b ≡ true) × (found ≡ restored)
unfolding found_or is_ok
last_test true true found restored e = (refl, refl, ap (found_or found) e)
last_test true false found restored e = absurd (ground (arith, ap is_ok e))
last_test false b found restored e = absurd (ground (arith, ap is_ok e))

nothing : (over : List ℕ) → (length over == 0) ≡ true → over ≡ []
nothing [] h = refl
nothing (b ∷ over) h = absurd (ground (arith, h))

sound_parts :
    (cfg : Config) (cache : List Slot) (file head rest expected over : List ℕ) (r : Reader)
    (restored : Restored)
    → All IsByte file
    → take_bytes 48 file ≡ some (head, rest)
    → good_header cfg head ≡ true
    → read_slots cfg (slot_order cfg (u32_at (drop 16 head))) (start_read cache head rest) ≡ some r
    → take_bytes 32 r.rest ≡ some (expected, over)
    → read_snapshot cfg cache file ≡ ok restored
    → (ss : List Slot) × HasRead cfg cache file restored ss
sound_parts cfg cache file head rest expected over r restored all e1 e2 e3 e4 e =
    let positions = u32_at (drop 16 head) in
    let next_token = u32_at (drop 40 head) in
    let found : Restored = record {
      cache = r.cache;
      positions = positions;
      next_token = next_token;
    } in
    let (same, empty, done) =
      last_test (same_text expected (final r.hash)) (length over == 0) found restored
        (sym (read_parts cfg cache file head rest expected over r e1 e2 e3 e4) ∙ e) in
    let (cut, size) = take_bytes_sound 48 file head rest e1 in
    let (tail, _) = take_bytes_sound 32 r.rest expected over e4 in
    let parts = subst (All IsByte) cut all in
    let head_all = All-left IsByte head rest parts in
    let h = good_header_sound cfg head e2 in
    let written = IsHeader-header_bytes cfg head positions next_token h head_all size in
    let (ss, more) =
      read_slots_sound cfg (slot_order cfg positions) (start_read cache head rest) r
        (All-right IsByte head rest parts) e3 in
    let digest : expected ++ over ≡ sha256 (body cfg positions next_token ss) =
      ap (λ o. expected ++ o) (nothing over empty)
      ∙ append-nil expected
      ∙ same_text_sound expected (final r.hash) same
      ∙ ap final more.hash
      ∙ ap (λ x. final (hash_slots (update sha_init x) ss)) written
      ∙ body_digest cfg positions next_token ss in
    let bytes : file ≡ print_snapshot cfg positions next_token ss =
      cut
      ∙ ap₂ ◌++◌ written (more.bytes ∙ ap (λ x. slots_bytes ss ++ x) (tail ∙ digest))
      ∙ sym (
          append_assoc (header_bytes cfg positions next_token) (slots_bytes ss)
            (sha256 (body cfg positions next_token ss))) in
    let whole : HasRead cfg cache file found ss = record {
      made = record {
        some_positions = h.some_positions;
        fits = h.fits;
        token = u32_at-IsU32 (drop 40 head) (All-drop IsByte 40 head head_all);
        size = more.size;
        stored = more.stored;
      };
      bytes = bytes;
      slots = more.cache;
    } in
    (ss, subst (λ x. HasRead cfg cache file x ss) done whole)

pub read_snapshot_sound :
    (cfg : Config) (cache : List Slot) (file : List ℕ) (restored : Restored)
    → All IsByte file
    → read_snapshot cfg cache file ≡ ok restored
    → (ss : List Slot) × HasRead cfg cache file restored ss
unfolding read_snapshot
read_snapshot_sound cfg cache file restored all e = elim (Option-cases (take_bytes 48 file)) [
  | inl bad ↦ ground (arith, e, bad)
  | inr ((head, rest), e1) ↦ elim (Bool-cases (good_header cfg head)) [
    | inr bad ↦ ground (arith, e, e1, bad)
    | inl e2 ↦
        elim (Option-cases
          (read_slots cfg (slot_order cfg (u32_at (drop 16 head))) (start_read cache head rest))) [
            | inl bad ↦ ground (arith, e, e1, e2, bad)
            | inr (r, e3) ↦ elim (Option-cases (take_bytes 32 r.rest)) [
              | inl bad ↦ ground (arith, e, e1, e2, e3, bad)
              | inr ((expected, over), e4) ↦
                  sound_parts cfg cache file head rest expected over r restored all e1 e2 e3 e4 e
            ]
          ]
  ]
]

-- With a configuration of 32-bit numbers, a file of bytes is read with a result exactly when it is
-- the header, the slots and the digest of a snapshot, of 1 to ctx_tokens positions, of as many
-- slots as the loops go through, each of the right sizes and with good scales; the result is those
-- slots stored in their places.
pub read_snapshot_iff :
    (cfg : Config) (cache : List Slot) (file : List ℕ) (restored : Restored)
    → IsConfig cfg
    → All IsByte file
    → (read_snapshot cfg cache file ≡ ok restored)
      ↔ ((ss : List Slot) × HasRead cfg cache file restored ss)
read_snapshot_iff cfg cache file restored h all = (
  read_snapshot_sound cfg cache file restored all,
  λ (ss, done).
      ap (read_snapshot cfg cache) done.bytes
      ∙ read_snapshot-print cfg cache restored.positions restored.next_token ss h done.made
      ∙ ap
          (λ c. ok (record {
            cache = c;
            positions = restored.positions;
            next_token = restored.next_token;
          }))
          (sym done.slots),
)
