-- ===== src/Snapshot/Sha256.antt =====
-- src/qx_format.c: SHA-256 (qx_kv_sha256_init, _update, _final). The bytes of the block that are not
-- filled yet are not in the list, so `block_len` is its length.
pub mod Stream
pub mod Fips
pub mod Block
pub mod Standard
use Prim.Native.Nat.{bit_xor}
use qx_mini_c.Prelude.{
  ℕ, zero, suc, ◌+◌, ◌-◌, ◌*◌, ◌/◌, ◌%◌, ◌^◌, List, [], ◌∷◌, ◌++◌, ltb, ◌==◌, if◌then◌else◌, length,
  get_or, take, drop, replicate, u32_mod, u64_mod, u32_max, add32, add64, bit_and, bit_or,
}

-- The eight words of the state.
pub record State : Type 0 where
  pub a : ℕ
  pub b : ℕ
  pub c : ℕ
  pub d : ℕ
  pub e : ℕ
  pub f : ℕ
  pub g : ℕ
  pub h : ℕ

pub record Sha : Type 0 where
  pub state : State
  pub bit_count : ℕ
  pub block : List ℕ

abbrev pub rotr : ℕ → ℕ → ℕ
rotr value bits = bit_or (value / 2 ^ bits) (value * 2 ^ (32 - bits) % u32_mod)

abbrev pub constants : List ℕ
constants =
    0x428a2f98 ∷ 0x71374491 ∷ 0xb5c0fbcf ∷ 0xe9b5dba5 ∷ 0x3956c25b ∷ 0x59f111f1 ∷ 0x923f82a4
    ∷ 0xab1c5ed5 ∷ 0xd807aa98 ∷ 0x12835b01 ∷ 0x243185be ∷ 0x550c7dc3 ∷ 0x72be5d74 ∷ 0x80deb1fe
    ∷ 0x9bdc06a7 ∷ 0xc19bf174 ∷ 0xe49b69c1 ∷ 0xefbe4786 ∷ 0x0fc19dc6 ∷ 0x240ca1cc ∷ 0x2de92c6f
    ∷ 0x4a7484aa ∷ 0x5cb0a9dc ∷ 0x76f988da ∷ 0x983e5152 ∷ 0xa831c66d ∷ 0xb00327c8 ∷ 0xbf597fc7
    ∷ 0xc6e00bf3 ∷ 0xd5a79147 ∷ 0x06ca6351 ∷ 0x14292967 ∷ 0x27b70a85 ∷ 0x2e1b2138 ∷ 0x4d2c6dfc
    ∷ 0x53380d13 ∷ 0x650a7354 ∷ 0x766a0abb ∷ 0x81c2c92e ∷ 0x92722c85 ∷ 0xa2bfe8a1 ∷ 0xa81a664b
    ∷ 0xc24b8b70 ∷ 0xc76c51a3 ∷ 0xd192e819 ∷ 0xd6990624 ∷ 0xf40e3585 ∷ 0x106aa070 ∷ 0x19a4c116
    ∷ 0x1e376c08 ∷ 0x2748774c ∷ 0x34b0bcb5 ∷ 0x391c0cb3 ∷ 0x4ed8aa4a ∷ 0x5b9cca4f ∷ 0x682e6ff3
    ∷ 0x748f82ee ∷ 0x78a5636f ∷ 0x84c87814 ∷ 0x8cc70208 ∷ 0x90befffa ∷ 0xa4506ceb ∷ 0xbef9a3f7
    ∷ 0xc67178f2 ∷ []

-- The first loop of qx_kv_sha256_transform: so many words, the highest byte first.
unfoldable pub block_words : ℕ → List ℕ → List ℕ
block_words zero block = []
block_words (suc n) block =
    bit_or
      (bit_or (bit_or (get_or block 0 0 * 2 ^ 24) (get_or block 1 0 * 2 ^ 16))
        (get_or block 2 0 * 2 ^ 8))
      (get_or block 3 0)
    ∷ block_words n (drop 4 block)

-- The second loop: so many words more, from the word `i` on.
unfoldable pub extend_words : ℕ → ℕ → List ℕ → List ℕ
extend_words zero i words = words
extend_words (suc n) i words =
    let w15 = get_or words (i - 15) 0 in
    let w2 = get_or words (i - 2) 0 in
    let s0 = bit_xor (bit_xor (rotr w15 7) (rotr w15 18)) (w15 / 2 ^ 3) in
    let s1 = bit_xor (bit_xor (rotr w2 17) (rotr w2 19)) (w2 / 2 ^ 10) in
    let word = add32 (add32 (add32 (get_or words (i - 16) 0) s0) (get_or words (i - 7) 0)) s1 in
    extend_words n (i + 1) (words ++ word ∷ [])

-- The third loop, on the constants and words from `i` on.
unfoldable pub rounds : List ℕ → List ℕ → State → State
rounds [] ws s = s
rounds (k ∷ ks) [] s = s
rounds (k ∷ ks) (w ∷ ws) s =
    let s1 = bit_xor (bit_xor (rotr s.e 6) (rotr s.e 11)) (rotr s.e 25) in
    let choice = bit_xor (bit_and s.e s.f) (bit_and (u32_max - s.e) s.g) in
    let temp1 = add32 (add32 (add32 (add32 s.h s1) choice) k) w in
    let s0 = bit_xor (bit_xor (rotr s.a 2) (rotr s.a 13)) (rotr s.a 22) in
    let majority = bit_xor (bit_xor (bit_and s.a s.b) (bit_and s.a s.c)) (bit_and s.b s.c) in
    let temp2 = add32 s0 majority in
    rounds ks ws (record {
      a = add32 temp1 temp2;
      b = s.a;
      c = s.b;
      d = s.c;
      e = add32 s.d temp1;
      f = s.e;
      g = s.f;
      h = s.g;
    })

unfoldable pub transform : State → List ℕ → State
transform s block =
    let t = rounds constants (extend_words 48 16 (block_words 16 block)) s in
    record {
      a = add32 s.a t.a;
      b = add32 s.b t.b;
      c = add32 s.c t.c;
      d = add32 s.d t.d;
      e = add32 s.e t.e;
      f = add32 s.f t.f;
      g = add32 s.g t.g;
      h = add32 s.h t.h;
    }

abbrev pub initial : State
initial = record {
  a = 0x6a09e667;
  b = 0xbb67ae85;
  c = 0x3c6ef372;
  d = 0xa54ff53a;
  e = 0x510e527f;
  f = 0x9b05688c;
  g = 0x1f83d9ab;
  h = 0x5be0cd19;
}

abbrev pub sha_init : Sha
sha_init = record { state = initial; bit_count = 0; block = [] }

-- One round of the loop of qx_kv_sha256_update: how many bytes it takes, and what it does with them.
abbrev pub piece_size : Sha → ℕ → ℕ
piece_size ctx size = if ltb size (64 - length ctx.block) then size else 64 - length ctx.block

unfoldable pub put_piece : Sha → List ℕ → Sha
put_piece ctx piece =
    let block = ctx.block ++ piece in
    if length block == 64
    then record ctx { state = transform ctx.state block; block = [] }
    else record ctx { block = block }

-- The loop; a round takes at least one byte.
unfoldable pub update_loop : ℕ → Sha → List ℕ → Sha
unfolding put_piece
update_loop zero ctx bytes = ctx
update_loop (suc fuel) ctx [] = ctx
update_loop (suc fuel) ctx (x ∷ bytes) =
    let size = piece_size ctx (length (x ∷ bytes)) in
    update_loop fuel (put_piece ctx (take size (x ∷ bytes))) (drop size (x ∷ bytes))

unfoldable pub update : Sha → List ℕ → Sha
unfolding update_loop
update ctx bytes =
    update_loop (length bytes)
      (record ctx { bit_count = add64 ctx.bit_count (length bytes * 8 % u64_mod) }) bytes

-- Eight and four bytes, the highest first.
abbrev pub be64 : ℕ → List ℕ
be64 n =
    n / 2 ^ 56 % 256
    ∷ n / 2 ^ 48 % 256
    ∷ n / 2 ^ 40 % 256
    ∷ n / 2 ^ 32 % 256
    ∷ n / 2 ^ 24 % 256
    ∷ n / 2 ^ 16 % 256
    ∷ n / 2 ^ 8 % 256
    ∷ n % 256
    ∷ []

abbrev pub be32 : ℕ → List ℕ
be32 n = n / 2 ^ 24 % 256 ∷ n / 2 ^ 16 % 256 ∷ n / 2 ^ 8 % 256 ∷ n % 256 ∷ []

-- The digest's bytes.
abbrev pub output : State → List ℕ
output s =
    be32 s.a ++ be32 s.b ++ be32 s.c ++ be32 s.d ++ be32 s.e ++ be32 s.f ++ be32 s.g ++ be32 s.h

-- 128 (0x80), then zeros.
abbrev pub padding : ℕ → List ℕ
padding size = take size (128 ∷ replicate 127 0)

unfoldable pub final : Sha → List ℕ
unfolding update
final ctx =
    let bit_count = ctx.bit_count in
    let size =
      if ltb (length ctx.block) 56 then 56 - length ctx.block else 120 - length ctx.block in
    output (update (update ctx (padding size)) (be64 bit_count)).state
