-- ===== src/Snapshot/Slots.antt =====
-- src/qx_format.c: the loop of qx_read_accumulated_kv_snapshot over the slots.
use mathlib.Core.List.{append_assoc, append-nil}
use mathlib.Core.Option.{some-injective, none-ne-some}
use mathlib.Core.Path.{ap₂, subst}
use qx_mini_c.Prelude.Bytes.{
  IsByte, le32, u32_at, u32_at-le32, u32_at-IsU32, le32-u32_at, take_bytes, take_bytes-append,
  take_bytes_sound,
}
use qx_mini_c.Prelude.{
  ℕ, suc, ◌≡◌, refl, sym, ap, ◌∙◌, List, [], ◌∷◌, ◌++◌, length, All, All-left, All-right, set,
  if◌then◌else◌, arith, Option, none, some, Option-cases, Bool-cases, inl, inr,
}
use qx_mini_c.Snapshot.{Config, Slot, Reader, format_id, good_scales, read_slot, read_slots}
use qx_mini_c.Snapshot.Print.{slot_bytes, slots_bytes, IsStored, store}
use qx_mini_c.Snapshot.Sha256.{Sha, update}
use qx_mini_c.Snapshot.Sha256.Standard.{HasTaken, update-HasTaken}

slot_appended :
    (message : List ℕ) (s : Slot)
    → (((message ++ s.k) ++ s.v) ++ le32 s.k_scale) ++ le32 s.v_scale ≡ message ++ slot_bytes s
slot_appended message s =
    let ks = le32 s.k_scale in
    let vs = le32 s.v_scale in
    append_assoc ((message ++ s.k) ++ s.v) ks vs
    ∙ append_assoc (message ++ s.k) s.v (ks ++ vs)
    ∙ append_assoc message s.k (s.v ++ (ks ++ vs))

-- The hash after a slot, and after some.
abbrev pub hash_slot : Sha → Slot → Sha
hash_slot hash s = update (update (update (update hash s.k) s.v) (le32 s.k_scale)) (le32 s.v_scale)

abbrev pub hash_slots : Sha → List Slot → Sha
hash_slots hash [] = hash
hash_slots hash (s ∷ ss) = hash_slots (hash_slot hash s) ss

pub hash_slot-HasTaken :
    (hash : Sha) (message : List ℕ) (s : Slot)
    → HasTaken hash message
    → HasTaken (hash_slot hash s) (message ++ slot_bytes s)
hash_slot-HasTaken hash message s h =
    let h1 = update-HasTaken hash message s.k h in
    let h2 = update-HasTaken (update hash s.k) (message ++ s.k) s.v h1 in
    let h3 =
      update-HasTaken (update (update hash s.k) s.v) ((message ++ s.k) ++ s.v) (le32 s.k_scale)
        h2 in
    let h4 =
      update-HasTaken (update (update (update hash s.k) s.v) (le32 s.k_scale))
        (((message ++ s.k) ++ s.v) ++ le32 s.k_scale) (le32 s.v_scale) h3 in
    subst (HasTaken (hash_slot hash s)) (slot_appended message s) h4

pub hash_slots-HasTaken :
    (hash : Sha) (message : List ℕ) (ss : List Slot)
    → HasTaken hash message
    → HasTaken (hash_slots hash ss) (message ++ slots_bytes ss)
hash_slots-HasTaken hash message [] h = subst (HasTaken hash) (sym (append-nil message)) h
hash_slots-HasTaken hash message (s ∷ ss) h =
    subst (HasTaken (hash_slots hash (s ∷ ss)))
      (append_assoc message (slot_bytes s) (slots_bytes ss))
      (hash_slots-HasTaken (hash_slot hash s) (message ++ slot_bytes s) ss
        (hash_slot-HasTaken hash message s h))

-- The bytes of a slot, one part after the other.
slot_split :
    (s : Slot) (more : List ℕ)
    → slot_bytes s ++ more ≡ s.k ++ (s.v ++ (le32 s.k_scale ++ (le32 s.v_scale ++ more)))
slot_split s more =
    append_assoc s.k (s.v ++ (le32 s.k_scale ++ le32 s.v_scale)) more
    ∙ ap (λ t. s.k ++ t) (append_assoc s.v (le32 s.k_scale ++ le32 s.v_scale) more)

take_part : (n : ℕ) (xs ys : List ℕ) → length xs ≡ n → take_bytes n (xs ++ ys) ≡ some (xs, ys)
take_part n xs ys size =
    subst (λ m. take_bytes m (xs ++ ys) ≡ some (xs, ys)) size (take_bytes-append xs ys)

-- What a read of a slot comes to, once its four parts are there.
read_slot_parts :
    (cfg : Config) (slot : ℕ) (r : Reader) (k r1 v r2 ks r3 vs r4 : List ℕ)
    → take_bytes cfg.bytes_per_k_or_v r.rest ≡ some (k, r1)
    → take_bytes cfg.bytes_per_k_or_v r1 ≡ some (v, r2)
    → take_bytes 4 r2 ≡ some (ks, r3)
    → take_bytes 4 r3 ≡ some (vs, r4)
    → read_slot cfg slot r ≡ (
        if good_scales (format_id cfg.kv_format) (u32_at ks) (u32_at vs)
        then some (record {
          cache =
              set r.cache slot (record { k = k; v = v; k_scale = u32_at ks; v_scale = u32_at vs });
          hash = update (update (update (update r.hash k) v) ks) vs;
          rest = r4;
        })
        else none)
unfolding read_slot
read_slot_parts cfg slot r k r1 v r2 ks r3 vs r4 e1 e2 e3 e4 = rw (e1, e2, e3, e4, read_slot) refl

read_slot-print :
    (cfg : Config) (slot : ℕ) (s : Slot) (cache : List Slot) (hash : Sha) (more : List ℕ)
    → IsStored cfg s
    → read_slot cfg slot (record { cache = cache; hash = hash; rest = slot_bytes s ++ more })
      ≡ some (record { cache = set cache slot s; hash = hash_slot hash s; rest = more })
read_slot-print cfg slot s cache hash more h =
    let n = cfg.bytes_per_k_or_v in
    let last = le32 s.v_scale ++ more in
    let tail = le32 s.k_scale ++ last in
    let ks = u32_at-le32 s.k_scale [] h.k_word in
    let vs = u32_at-le32 s.v_scale [] h.v_word in
    let whole : Reader = record { cache = cache; hash = hash; rest = slot_bytes s ++ more } in
    let parts =
      read_slot_parts cfg slot whole s.k (s.v ++ tail) s.v tail (le32 s.k_scale) last
        (le32 s.v_scale) more
        (ap (take_bytes n) (slot_split s more) ∙ take_part n s.k (s.v ++ tail) h.k_size)
        (take_part n s.v tail h.v_size) (take_part 4 (le32 s.k_scale) last refl)
        (take_part 4 (le32 s.v_scale) more refl) in
    let good = ap₂ (good_scales (format_id cfg.kv_format)) ks vs ∙ h.scales in
    let read : Slot = record {
      k = s.k;
      v = s.v;
      k_scale = u32_at (le32 s.k_scale);
      v_scale = u32_at (le32 s.v_scale);
    } in
    let same : read ≡ s = λ i. record { k = s.k; v = s.v; k_scale = ks i; v_scale = vs i } in
    let done : Slot → Option Reader =
      λ x. some (record { cache = set cache slot x; hash = hash_slot hash s; rest = more }) in
    parts ∙ ap (λ b. if b then done read else none) good ∙ ap done same

four : (s : List ℕ) → All IsByte s → length s ≡ 4 → s ≡ le32 (u32_at s)
four [] h size = absurd (omega (arith, size))
four (a ∷ []) h size = absurd (omega (arith, size))
four (a ∷ b ∷ []) h size = absurd (omega (arith, size))
four (a ∷ b ∷ c ∷ []) h size = absurd (omega (arith, size))
four (a ∷ b ∷ c ∷ d ∷ []) h size = le32-u32_at (a ∷ b ∷ c ∷ d ∷ []) h (omega (arith, size))
four (a ∷ b ∷ c ∷ d ∷ x ∷ s) h size = absurd (omega (arith, size))

-- A slot that was read.
record IsRead (cfg : Config) (slot : ℕ) (r r' : Reader) (s : Slot) : Type 0 where
  pub stored : IsStored cfg s
  pub bytes : r.rest ≡ slot_bytes s ++ r'.rest
  pub cache : r'.cache ≡ set r.cache slot s
  pub hash : r'.hash ≡ hash_slot r.hash s

parts_sound :
    (cfg : Config) (slot : ℕ) (r r' : Reader) (k r1 v r2 ks r3 vs r4 : List ℕ)
    → (r.rest ≡ k ++ r1) × (length k ≡ cfg.bytes_per_k_or_v)
    → (r1 ≡ v ++ r2) × (length v ≡ cfg.bytes_per_k_or_v)
    → (r2 ≡ ks ++ r3) × (length ks ≡ 4)
    → (r3 ≡ vs ++ r4) × (length vs ≡ 4)
    → All IsByte r.rest
    → (if good_scales (format_id cfg.kv_format) (u32_at ks) (u32_at vs)
        then some (record {
          cache =
              set r.cache slot (record { k = k; v = v; k_scale = u32_at ks; v_scale = u32_at vs });
          hash = update (update (update (update r.hash k) v) ks) vs;
          rest = r4;
        })
        else none)
      ≡ some r'
    → (s : Slot) × IsRead cfg slot r r' s
parts_sound cfg slot r r' k r1 v r2 ks r3 vs r4 (e1, n1) (e2, n2) (e3, n3) (e4, n4) all e =
    let all1 = All-right IsByte k r1 (subst (All IsByte) e1 all) in
    let all2 = All-right IsByte v r2 (subst (All IsByte) e2 all1) in
    let split3 = subst (All IsByte) e3 all2 in
    let all3 = All-right IsByte ks r3 split3 in
    let all_ks = All-left IsByte ks r3 split3 in
    let all_vs = All-left IsByte vs r4 (subst (All IsByte) e4 all3) in
    let k_bytes = four ks all_ks n3 in
    let v_bytes = four vs all_vs n4 in
    let s : Slot = record { k = k; v = v; k_scale = u32_at ks; v_scale = u32_at vs } in
    let tail : r2 ≡ le32 (u32_at ks) ++ (le32 (u32_at vs) ++ r4) =
      e3 ∙ ap₂ ◌++◌ k_bytes (e4 ∙ ap (λ x. x ++ r4) v_bytes) in
    let bytes : r.rest ≡ slot_bytes s ++ r4 =
      e1 ∙ ap (λ x. k ++ x) (e2 ∙ ap (λ x. v ++ x) tail) ∙ sym (slot_split s r4) in
    let hashed : update (update (update (update r.hash k) v) ks) vs ≡ hash_slot r.hash s =
      ap₂ (λ x y. update (update (update (update r.hash k) v) x) y) k_bytes v_bytes in
    elim (Bool-cases (good_scales (format_id cfg.kv_format) (u32_at ks) (u32_at vs))) [
      | inl good ↦
          let next : Reader = record {
            cache = set r.cache slot s;
            hash = update (update (update (update r.hash k) v) ks) vs;
            rest = r4;
          } in
          let same : next ≡ r' =
            some-injective next r' (sym (ap (λ b. if b then some next else none) good) ∙ e) in
          (
            s,
            record {
              stored = record {
                k_size = n1;
                v_size = n2;
                k_word = u32_at-IsU32 ks all_ks;
                v_word = u32_at-IsU32 vs all_vs;
                scales = good;
              };
              bytes = bytes ∙ ap (λ (x : Reader). slot_bytes s ++ x.rest) same;
              cache = sym (ap (λ (x : Reader). x.cache) same);
              hash = sym (ap (λ (x : Reader). x.hash) same) ∙ hashed;
            },
          )
      | inr bad ↦ absurd (
          none-ne-some r' (
            sym (
              ap
                (λ b.
                  if b
                  then some (record {
                    cache = set r.cache slot s;
                    hash = update (update (update (update r.hash k) v) ks) vs;
                    rest = r4;
                  })
                  else none)
                bad)
            ∙ e))
    ]

read_slot_sound :
    (cfg : Config) (slot : ℕ) (r r' : Reader)
    → All IsByte r.rest
    → read_slot cfg slot r ≡ some r'
    → (s : Slot) × IsRead cfg slot r r' s
unfolding read_slot
read_slot_sound cfg slot r r' all e = elim (Option-cases (take_bytes cfg.bytes_per_k_or_v r.rest)) [
  | inl bad ↦ ground (arith, e, bad)
  | inr ((k, r1), e1) ↦ elim (Option-cases (take_bytes cfg.bytes_per_k_or_v r1)) [
    | inl bad ↦ ground (arith, e, e1, bad)
    | inr ((v, r2), e2) ↦ elim (Option-cases (take_bytes 4 r2)) [
      | inl bad ↦ ground (arith, e, e1, e2, bad)
      | inr ((ks, r3), e3) ↦ elim (Option-cases (take_bytes 4 r3)) [
        | inl bad ↦ ground (arith, e, e1, e2, e3, bad)
        | inr ((vs, r4), e4) ↦
            let done = sym (read_slot_parts cfg slot r k r1 v r2 ks r3 vs r4 e1 e2 e3 e4) ∙ e in
            parts_sound cfg slot r r' k r1 v r2 ks r3 vs r4
              (take_bytes_sound cfg.bytes_per_k_or_v r.rest k r1 e1)
              (take_bytes_sound cfg.bytes_per_k_or_v r1 v r2 e2) (take_bytes_sound 4 r2 ks r3 e3)
              (take_bytes_sound 4 r3 vs r4 e4) all done
      ]
    ]
  ]
]

pub read_slots-print :
    (cfg : Config) (slots : List ℕ) (ss : List Slot) (cache : List Slot) (hash : Sha)
    (more : List ℕ)
    → length ss ≡ length slots
    → All (IsStored cfg) ss
    → read_slots cfg slots (record { cache = cache; hash = hash; rest = slots_bytes ss ++ more })
      ≡ some (record { cache = store slots ss cache; hash = hash_slots hash ss; rest = more })
unfolding read_slots
read_slots-print cfg [] [] cache hash more size h = refl
read_slots-print cfg [] (s ∷ ss) cache hash more size h = absurd (omega (arith, size))
read_slots-print cfg (slot ∷ slots) [] cache hash more size h = absurd (omega (arith, size))
read_slots-print cfg (slot ∷ slots) (s ∷ ss) cache hash more size h =
    let rest = slots_bytes ss ++ more in
    let first =
      ap (λ x. read_slot cfg slot (record { cache = cache; hash = hash; rest = x }))
        (append_assoc (slot_bytes s) (slots_bytes ss) more)
      ∙ read_slot-print cfg slot s cache hash rest h.0 in
    rw (first, read_slots)
      (read_slots-print cfg slots ss (set cache slot s) (hash_slot hash s) more
        (omega (arith, size)) h.1)

-- Slots that were read.
pub record AreRead (cfg : Config) (slots : List ℕ) (r r' : Reader) (ss : List Slot) : Type 0 where
  pub size : length ss ≡ length slots
  pub stored : All (IsStored cfg) ss
  pub bytes : r.rest ≡ slots_bytes ss ++ r'.rest
  pub cache : r'.cache ≡ store slots ss r.cache
  pub hash : r'.hash ≡ hash_slots r.hash ss

pub read_slots_sound :
    (cfg : Config) (slots : List ℕ) (r r' : Reader)
    → All IsByte r.rest
    → read_slots cfg slots r ≡ some r'
    → (ss : List Slot) × AreRead cfg slots r r' ss
unfolding read_slots
read_slots_sound cfg [] r r' all e =
    let same = some-injective r r' e in
    (
      [],
      record {
        size = refl;
        stored = tt;
        bytes = ap (λ (x : Reader). x.rest) same;
        cache = sym (ap (λ (x : Reader). x.cache) same);
        hash = sym (ap (λ (x : Reader). x.hash) same);
      },
    )
read_slots_sound cfg (slot ∷ slots) r r' all e = elim (Option-cases (read_slot cfg slot r)) [
  | inl bad ↦ ground (arith, e, bad)
  | inr (mid, good) ↦
      let (s, one) = read_slot_sound cfg slot r mid all good in
      let all' = All-right IsByte (slot_bytes s) mid.rest (subst (All IsByte) one.bytes all) in
      let (ss, more) = read_slots_sound cfg slots mid r' all' (ground (arith, e, good)) in
      (
        s ∷ ss,
        record {
          size = ap suc more.size;
          stored = (one.stored, more.stored);
          bytes =
              one.bytes
              ∙ ap (λ x. slot_bytes s ++ x) more.bytes
              ∙ sym (append_assoc (slot_bytes s) (slots_bytes ss) r'.rest);
          cache = more.cache ∙ ap (store slots ss) one.cache;
          hash = more.hash ∙ ap (λ x. hash_slots x ss) one.hash;
        },
      )
]
