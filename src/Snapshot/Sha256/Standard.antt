-- ===== src/Snapshot/Sha256/Standard.antt =====
-- src/qx_format.c: the digest of a message given in pieces, against the one that Sha256.Fips writes.
use mathlib.Core.List.{append_assoc, append-nil}
use mathlib.Core.Path.{ap₂}
use qx_mini_c.Prelude.{
  ℕ, zero, suc, ◌+◌, ◌-◌, ◌*◌, ◌/◌, ◌%◌, ◌^◌, ◌≤◌, ◌<◌, ◌≡◌, refl, sym, ap, ◌∙◌, List, [], ◌∷◌,
  ◌++◌, ltb, if◌then◌else◌, length, take, drop, replicate, flatten, map, length-append, length-take,
  length-drop, take-append-drop, arith, u64_mod, add64, All, All-append,
}
use qx_mini_c.Prelude.Bytes.{IsByte}
use qx_mini_c.Snapshot.Sha256.{
  State, Sha, transform, update, sha_init, be64, be32, output, padding, final,
}
use qx_mini_c.Snapshot.Sha256.Block.{transform-compress_block}
use qx_mini_c.Snapshot.Sha256.Fips.{
  compress, big_endian, zero_bytes, padded, first_value, digest, sha256,
}
use qx_mini_c.Snapshot.Sha256.Stream.{
  feed_all, feed_all-append, feed_all-full, feed_all-bit_count, feed_all-length, update-feed_all,
}

feed_all-compress :
    (n : ℕ) (ctx : Sha) (bytes : List ℕ)
    → ctx.block ≡ []
    → length bytes ≡ n * 64
    → (feed_all ctx bytes).state ≡ compress n ctx.state bytes
unfolding compress feed_all
feed_all-compress zero ctx [] empty size = refl
feed_all-compress zero ctx (x ∷ bytes) empty size = absurd (omega (arith, size))
feed_all-compress (suc n) ctx bytes empty size =
    let first = take 64 bytes in
    let rest = drop 64 bytes in
    let none_yet : length ctx.block ≡ 0 = ap length empty in
    let whole : length first ≡ 64 = omega (arith, size, length-take 64 bytes) in
    let full = feed_all-full ctx first (omega (arith, none_yet, whole)) (omega (arith, none_yet)) in
    let next : Sha = record ctx { state = transform ctx.state first; block = [] } in
    let taken : feed_all ctx first ≡ next =
      full ∙ ap (λ b. record ctx { state = transform ctx.state (b ++ first); block = [] }) empty in
    let split : feed_all ctx bytes ≡ feed_all next rest =
      ap (feed_all ctx) (sym (take-append-drop 64 bytes))
      ∙ feed_all-append ctx first rest
      ∙ ap (λ (c : Sha). feed_all c rest) taken in
    ap (λ (c : Sha). c.state) split
    ∙ feed_all-compress n next rest refl (omega (arith, size, length-drop 64 bytes))
    ∙ ap (λ v. compress n v rest) (transform-compress_block ctx.state first)

-- A context that has taken a message in.
abbrev pub HasTaken : Sha → List ℕ → Type 0
HasTaken ctx message =
    ctx ≡ record (feed_all sha_init message) { bit_count = length message * 8 % u64_mod }

pub init-HasTaken : HasTaken sha_init []
unfolding feed_all
init-HasTaken = refl

pub update-HasTaken :
    (ctx : Sha) (message piece : List ℕ)
    → HasTaken ctx message
    → HasTaken (update ctx piece) (message ++ piece)
update-HasTaken ctx message piece h =
    let base = feed_all sha_init message in
    let n = add64 ctx.bit_count (length piece * 8 % u64_mod) in
    let size = feed_all-length sha_init message (omega arith) in
    let same : length ctx.block ≡ length base.block = ap (λ (c : Sha). length c.block) h in
    let bits : n ≡ length (message ++ piece) * 8 % u64_mod =
      omega (arith, ap (λ (c : Sha). c.bit_count) h, length-append message piece) in
    update-feed_all ctx piece (omega (arith, same, size))
    ∙ ap (λ (c : Sha). feed_all (record c { bit_count = n }) piece) h
    ∙ feed_all-bit_count base n piece
    ∙ ap (λ (c : Sha). record c { bit_count = n }) (sym (feed_all-append sha_init message piece))
    ∙ ap (λ k. record (feed_all sha_init (message ++ piece)) { bit_count = k }) bits

take-replicate : (n m : ℕ) → n ≤ m → take {A = ℕ} n (replicate m 0) ≡ replicate n 0
take-replicate zero m h = refl
take-replicate (suc n) zero h = absurd (omega (arith, h))
take-replicate (suc n) (suc m) h = ap (◌∷◌ 0) (take-replicate n m (omega (arith, h)))

length-replicate : (n : ℕ) → length {A = ℕ} (replicate n 0) ≡ n
length-replicate zero = refl
length-replicate (suc n) = ap suc (length-replicate n)

padding-replicate : (n : ℕ) → n < 128 → padding (suc n) ≡ 128 ∷ replicate n 0
padding-replicate n h = ap (◌∷◌ 128) (take-replicate n 127 (omega (arith, h)))

length-padded : (message : List ℕ) → length (padded message) ≡ length (padded message) / 64 * 64
unfolding big_endian
length-padded message =
    let k = zero_bytes (length message) in
    let last = big_endian 8 (length message * 8) in
    let marked = 128 ∷ replicate k 0 in
    let all = length-append message (marked ++ last) in
    let tail = length-append marked last in
    let zeros = length-replicate k in
    let exact : length (padded message) ≡ length message + (1 + k + 8) =
      omega (arith, all, tail, zeros) in
    let whole : (length message + (1 + k + 8)) % 64 ≡ 0 = omega arith in omega (arith, exact, whole)

be64-big_endian : (n : ℕ) → be64 (n % u64_mod) ≡ big_endian 8 n
unfolding big_endian
be64-big_endian n =
    let e7 : n % u64_mod / 2 ^ 56 % 256 ≡ n / 2 ^ 56 % 256 = omega arith in
    let e6 : n % u64_mod / 2 ^ 48 % 256 ≡ n / 2 ^ 48 % 256 = omega arith in
    let e5 : n % u64_mod / 2 ^ 40 % 256 ≡ n / 2 ^ 40 % 256 = omega arith in
    let e4 : n % u64_mod / 2 ^ 32 % 256 ≡ n / 2 ^ 32 % 256 = omega arith in
    let e3 : n % u64_mod / 2 ^ 24 % 256 ≡ n / 2 ^ 24 % 256 = omega arith in
    let e2 : n % u64_mod / 2 ^ 16 % 256 ≡ n / 2 ^ 16 % 256 = omega arith in
    let e1 : n % u64_mod / 2 ^ 8 % 256 ≡ n / 2 ^ 8 % 256 = omega arith in
    let e0 : n % u64_mod % 256 ≡ n / 1 % 256 = omega arith in
    λ i. e7 i ∷ e6 i ∷ e5 i ∷ e4 i ∷ e3 i ∷ e2 i ∷ e1 i ∷ e0 i ∷ []

be32-big_endian : (n : ℕ) → be32 n ≡ big_endian 4 n
unfolding big_endian
be32-big_endian n =
    let e0 : n % 256 ≡ n / 1 % 256 = omega arith in
    λ i. n / 2 ^ 24 % 256 ∷ n / 2 ^ 16 % 256 ∷ n / 2 ^ 8 % 256 ∷ e0 i ∷ []

output-digest : (s : State) → output s ≡ digest s
unfolding big_endian
output-digest s = λ i.
    be32-big_endian s.a i
    ++ be32-big_endian s.b i
    ++ be32-big_endian s.c i
    ++ be32-big_endian s.d i
    ++ be32-big_endian s.e i
    ++ be32-big_endian s.f i
    ++ be32-big_endian s.g i
    ++ (be32-big_endian s.h i ++ [])

-- The digest of a context is that of the message it has taken in.
pub final-sha256 :
    (ctx : Sha) (message : List ℕ) → HasTaken ctx message → final ctx ≡ sha256 message
unfolding final sha256
final-sha256 ctx message h =
    let k = zero_bytes (length message) in
    let size =
      if ltb (length ctx.block) 56 then 56 - length ctx.block else 120 - length ctx.block in
    let filled = feed_all-length sha_init message (omega arith) in
    let same : length ctx.block ≡ length (feed_all sha_init message).block =
      ap (λ (c : Sha). length c.block) h in
    let pad_size : size ≡ suc k = ground (arith, same, filled) in
    let pad : padding size ≡ 128 ∷ replicate k 0 =
      ap padding pad_size ∙ padding-replicate k (omega arith) in
    let bits : be64 ctx.bit_count ≡ big_endian 8 (length message * 8) =
      ap be64 (ap (λ (c : Sha). c.bit_count) h) ∙ be64-big_endian (length message * 8) in
    let bytes : (message ++ padding size) ++ be64 ctx.bit_count ≡ padded message =
      append_assoc message (padding size) (be64 ctx.bit_count)
      ∙ ap₂ (λ p b. message ++ (p ++ b)) pad bits in
    let taken =
      update-HasTaken (update ctx (padding size)) (message ++ padding size) (be64 ctx.bit_count)
        (update-HasTaken ctx message (padding size) h) in
    ap (λ (c : Sha). output c.state) taken
    ∙ ap (λ m. output (feed_all sha_init m).state) bytes
    ∙ output-digest (feed_all sha_init (padded message)).state
    ∙ ap digest (
        feed_all-compress (length (padded message) / 64) sha_init (padded message) refl
          (length-padded message))

pub length-sha256 : (message : List ℕ) → length (sha256 message) ≡ 32
unfolding sha256 big_endian
length-sha256 message = refl

big_endian-IsByte : (k n : ℕ) → All IsByte (big_endian k n)
unfolding big_endian
big_endian-IsByte zero n = tt
big_endian-IsByte (suc k) n = (omega arith, big_endian-IsByte k n)

words-IsByte : (words : List ℕ) → All IsByte (flatten (map (big_endian 4) words))
words-IsByte [] = tt
words-IsByte (w ∷ words) =
    All-append IsByte (big_endian 4 w) (flatten (map (big_endian 4) words)) (big_endian-IsByte 4 w)
      (words-IsByte words)

pub sha256-IsByte : (message : List ℕ) → All IsByte (sha256 message)
unfolding sha256
sha256-IsByte message =
    let s = compress (length (padded message) / 64) first_value (padded message) in
    words-IsByte (s.a ∷ s.b ∷ s.c ∷ s.d ∷ s.e ∷ s.f ∷ s.g ∷ s.h ∷ [])

-- A list of pieces, one update after the other.
abbrev pub update_all : Sha → List (List ℕ) → Sha
update_all ctx [] = ctx
update_all ctx (piece ∷ pieces) = update_all (update ctx piece) pieces

pub update_all-HasTaken :
    (ctx : Sha) (message : List ℕ) (pieces : List (List ℕ))
    → HasTaken ctx message
    → HasTaken (update_all ctx pieces) (message ++ flatten pieces)
update_all-HasTaken ctx message [] h =
    h
    ∙ ap (λ m. record (feed_all sha_init m) { bit_count = length m * 8 % u64_mod })
        (sym (append-nil message))
update_all-HasTaken ctx message (piece ∷ pieces) h =
    update_all-HasTaken (update ctx piece) (message ++ piece) pieces
      (update-HasTaken ctx message piece h)
    ∙ ap (λ m. record (feed_all sha_init m) { bit_count = length m * 8 % u64_mod })
        (append_assoc message piece (flatten pieces))

-- qx_kv_sha256_final after any updates gives the SHA-256 digest of the pieces put together, as
-- Sha256.Fips writes it after FIPS 180-4, with the standard's constants, functions, schedule, rounds
-- and padding and none of the code's.
pub final-update_all :
    (pieces : List (List ℕ)) → final (update_all sha_init pieces) ≡ sha256 (flatten pieces)
final-update_all pieces =
    final-sha256 (update_all sha_init pieces) (flatten pieces)
      (update_all-HasTaken sha_init [] pieces init-HasTaken)
