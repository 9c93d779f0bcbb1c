-- ===== src/Snapshot/Sha256/Fips.antt =====
-- SHA-256 as FIPS 180-4 writes it, on messages of whole bytes; nothing here but the record of eight
-- words is of the code in src/qx_format.c.
use Prim.Native.Nat.{bit_xor}
use qx_mini_c.Prelude.{
  ℕ, zero, suc, ◌+◌, ◌-◌, ◌*◌, ◌/◌, ◌%◌, ◌^◌, List, [], ◌∷◌, ◌++◌, length, get_or, take, drop,
  replicate, flatten, map, bit_and, bit_or,
}
use qx_mini_c.Snapshot.Sha256.{State}

-- Section 3.2 and 4.1.2: the functions on words of 32 bits.
abbrev pub rotate_right : ℕ → ℕ → ℕ
rotate_right n x = bit_or (x / 2 ^ n) (x * 2 ^ (32 - n) % 2 ^ 32)

abbrev pub ch : ℕ → ℕ → ℕ → ℕ
ch x y z = bit_xor (bit_and x y) (bit_and (4294967295 - x) z)

abbrev pub maj : ℕ → ℕ → ℕ → ℕ
maj x y z = bit_xor (bit_xor (bit_and x y) (bit_and x z)) (bit_and y z)

abbrev pub big_sigma0 : ℕ → ℕ
big_sigma0 x = bit_xor (bit_xor (rotate_right 2 x) (rotate_right 13 x)) (rotate_right 22 x)

abbrev pub big_sigma1 : ℕ → ℕ
big_sigma1 x = bit_xor (bit_xor (rotate_right 6 x) (rotate_right 11 x)) (rotate_right 25 x)

abbrev pub sigma0 : ℕ → ℕ
sigma0 x = bit_xor (bit_xor (rotate_right 7 x) (rotate_right 18 x)) (x / 8)

abbrev pub sigma1 : ℕ → ℕ
sigma1 x = bit_xor (bit_xor (rotate_right 17 x) (rotate_right 19 x)) (x / 1024)

-- Section 4.2.2: the constants.
abbrev pub round_constants : List ℕ
round_constants =
    0x428a2f98 ∷ 0x71374491 ∷ 0xb5c0fbcf ∷ 0xe9b5dba5 ∷ 0x3956c25b ∷ 0x59f111f1 ∷ 0x923f82a4
    ∷ 0xab1c5ed5 ∷ 0xd807aa98 ∷ 0x12835b01 ∷ 0x243185be ∷ 0x550c7dc3 ∷ 0x72be5d74 ∷ 0x80deb1fe
    ∷ 0x9bdc06a7 ∷ 0xc19bf174 ∷ 0xe49b69c1 ∷ 0xefbe4786 ∷ 0x0fc19dc6 ∷ 0x240ca1cc ∷ 0x2de92c6f
    ∷ 0x4a7484aa ∷ 0x5cb0a9dc ∷ 0x76f988da ∷ 0x983e5152 ∷ 0xa831c66d ∷ 0xb00327c8 ∷ 0xbf597fc7
    ∷ 0xc6e00bf3 ∷ 0xd5a79147 ∷ 0x06ca6351 ∷ 0x14292967 ∷ 0x27b70a85 ∷ 0x2e1b2138 ∷ 0x4d2c6dfc
    ∷ 0x53380d13 ∷ 0x650a7354 ∷ 0x766a0abb ∷ 0x81c2c92e ∷ 0x92722c85 ∷ 0xa2bfe8a1 ∷ 0xa81a664b
    ∷ 0xc24b8b70 ∷ 0xc76c51a3 ∷ 0xd192e819 ∷ 0xd6990624 ∷ 0xf40e3585 ∷ 0x106aa070 ∷ 0x19a4c116
    ∷ 0x1e376c08 ∷ 0x2748774c ∷ 0x34b0bcb5 ∷ 0x391c0cb3 ∷ 0x4ed8aa4a ∷ 0x5b9cca4f ∷ 0x682e6ff3
    ∷ 0x748f82ee ∷ 0x78a5636f ∷ 0x84c87814 ∷ 0x8cc70208 ∷ 0x90befffa ∷ 0xa4506ceb ∷ 0xbef9a3f7
    ∷ 0xc67178f2 ∷ []

-- Section 5.2.1: so many words of four bytes, the highest byte first.
unfoldable pub words_of : ℕ → List ℕ → List ℕ
words_of zero bytes = []
words_of (suc n) bytes =
    bit_or
      (bit_or (bit_or (get_or bytes 0 0 * 16777216) (get_or bytes 1 0 * 65536))
        (get_or bytes 2 0 * 256))
      (get_or bytes 3 0)
    ∷ words_of n (drop 4 bytes)

-- Section 6.2.2, step 1: the first `16 + n` words of the schedule.
abbrev pub next_word : ℕ → List ℕ → ℕ
next_word n ws =
    (sigma1 (get_or ws (14 + n) 0)
      + get_or ws (9 + n) 0
      + sigma0 (get_or ws (1 + n) 0)
      + get_or ws n 0)
    % 2 ^ 32

unfoldable pub schedule : ℕ → List ℕ → List ℕ
schedule zero block = words_of 16 block
schedule (suc n) block = let ws = schedule n block in ws ++ next_word n ws ∷ []

-- Step 3: one round, and the rounds one after the other.
abbrev pub round : ℕ → ℕ → State → State
round k w s =
    let t1 = (s.h + big_sigma1 s.e + ch s.e s.f s.g + k + w) % 2 ^ 32 in
    let t2 = (big_sigma0 s.a + maj s.a s.b s.c) % 2 ^ 32 in
    record {
      a = (t1 + t2) % 2 ^ 32;
      b = s.a;
      c = s.b;
      d = s.c;
      e = (s.d + t1) % 2 ^ 32;
      f = s.e;
      g = s.f;
      h = s.g;
    }

unfoldable pub all_rounds : List ℕ → List ℕ → State → State
all_rounds [] ws s = s
all_rounds (k ∷ ks) [] s = s
all_rounds (k ∷ ks) (w ∷ ws) s = all_rounds ks ws (round k w s)

-- Steps 2 and 4: the next hash value.
unfoldable pub compress_block : State → List ℕ → State
compress_block s block =
    let t = all_rounds round_constants (schedule 48 block) s in
    record {
      a = (t.a + s.a) % 2 ^ 32;
      b = (t.b + s.b) % 2 ^ 32;
      c = (t.c + s.c) % 2 ^ 32;
      d = (t.d + s.d) % 2 ^ 32;
      e = (t.e + s.e) % 2 ^ 32;
      f = (t.f + s.f) % 2 ^ 32;
      g = (t.g + s.g) % 2 ^ 32;
      h = (t.h + s.h) % 2 ^ 32;
    }

-- Section 5.3.3: the first hash value.
abbrev pub first_value : State
first_value = record {
  a = 0x6a09e667;
  b = 0xbb67ae85;
  c = 0x3c6ef372;
  d = 0xa54ff53a;
  e = 0x510e527f;
  f = 0x9b05688c;
  g = 0x1f83d9ab;
  h = 0x5be0cd19;
}

-- So many blocks of 64 bytes, one after the other.
unfoldable pub compress : ℕ → State → List ℕ → State
compress zero s bytes = s
compress (suc n) s bytes = compress n (compress_block s (take 64 bytes)) (drop 64 bytes)

-- A number in so many bytes, the highest first.
unfoldable pub big_endian : ℕ → ℕ → List ℕ
big_endian zero n = []
big_endian (suc k) n = n / 256 ^ k % 256 ∷ big_endian k n

-- Section 5.1.1: the message, a bit 1, as many zeros as make the last block end with the 64 bits of
-- the length, and the length in bits.
abbrev pub zero_bytes : ℕ → ℕ
zero_bytes size = (119 - size % 64) % 64

abbrev pub padded : List ℕ → List ℕ
padded message =
    message
    ++ ((128 ∷ replicate (zero_bytes (length message)) 0) ++ big_endian 8 (length message * 8))

abbrev pub digest : State → List ℕ
digest s = flatten (map (big_endian 4) (s.a ∷ s.b ∷ s.c ∷ s.d ∷ s.e ∷ s.f ∷ s.g ∷ s.h ∷ []))

unfoldable pub sha256 : List ℕ → List ℕ
sha256 message = digest (compress (length (padded message) / 64) first_value (padded message))
