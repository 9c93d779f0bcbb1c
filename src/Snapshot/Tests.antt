-- ===== src/Snapshot/Tests.antt =====
-- src/qx_format.c: snapshots of a small cache, and digests of known messages.
use qx_mini_c.Prelude.Bytes.{IsByte, same_text}
use qx_mini_c.Prelude.{
  ℕ, ◌≡◌, ◌↔◌, refl, Bool, true, ◌&&◌, List, [], ◌∷◌, take, get_or, All, All-append, ltb, arith,
}
use qx_mini_c.Prelude.Results.{ok, err}
use qx_mini_c.Snapshot.{
  Config, Slot, Restored, payload_mismatch, blank, format_id, write_snapshot, read_snapshot,
}
use qx_mini_c.Snapshot.Cut.{read_snapshot-take}
use qx_mini_c.Snapshot.Print.{body, print_snapshot, IsConfig, IsStored}
use qx_mini_c.Snapshot.Read.{IsSnapshot, HasRead, read_snapshot-print, read_snapshot_iff}
use qx_mini_c.Snapshot.RoundTrip.{IsWritable, read_snapshot-write_snapshot}
use qx_mini_c.Snapshot.Sha256.{
  sha_init, put_piece, update_loop, update, transform, block_words, extend_words, rounds, final,
}
use qx_mini_c.Snapshot.Sha256.Fips.{sha256}
use qx_mini_c.Snapshot.Sha256.Standard.{update_all, sha256-IsByte, length-sha256, final-update_all}

-- "abc", in two pieces.
abc :
    final (update_all sha_init ((b'a' ∷ []) ∷ (b'b' ∷ b'c' ∷ []) ∷ []))
    ≡ 0xba ∷ 0x78 ∷ 0x16 ∷ 0xbf ∷ 0x8f ∷ 0x01 ∷ 0xcf ∷ 0xea ∷ 0x41 ∷ 0x41 ∷ 0x40 ∷ 0xde ∷ 0x5d
      ∷ 0xae ∷ 0x22 ∷ 0x23 ∷ 0xb0 ∷ 0x03 ∷ 0x61 ∷ 0xa3 ∷ 0x96 ∷ 0x17 ∷ 0x7a ∷ 0x9c ∷ 0xb4 ∷ 0x10
      ∷ 0xff ∷ 0x61 ∷ 0xf2 ∷ 0x00 ∷ 0x15 ∷ 0xad ∷ []
unfolding final update update_loop put_piece transform block_words extend_words rounds
abc = refl

final-update_all_example :
    final (update_all sha_init ((b'a' ∷ []) ∷ (b'b' ∷ b'c' ∷ []) ∷ []))
    ≡ sha256 (b'a' ∷ b'b' ∷ b'c' ∷ [])
final-update_all_example = final-update_all ((b'a' ∷ []) ∷ (b'b' ∷ b'c' ∷ []) ∷ [])

-- A layer of two tokens, one of them in the snapshot; the scales are 1.0f and 0.5f.
abbrev small : Config
small = record {
  layers = 1;
  ctx_tokens = 2;
  kv_heads = 1;
  head_dim = 1;
  kv_format = b'i' ∷ b'n' ∷ b't' ∷ b'8' ∷ [];
  bytes_per_k_or_v = 1;
  seed = 7;
}

abbrev slot_a : Slot
slot_a = record { k = 5 ∷ []; v = 6 ∷ []; k_scale = 0x3f800000; v_scale = 0x3f000000 }

abbrev slot_b : Slot
slot_b = record { k = 8 ∷ []; v = 9 ∷ []; k_scale = 0; v_scale = 0 }

small-IsConfig : IsConfig small
small-IsConfig = record {
  layers = omega arith;
  ctx_tokens = omega arith;
  kv_heads = omega arith;
  head_dim = omega arith;
  bytes = omega arith;
  seed = omega arith;
}

slot_a-IsStored : IsStored small slot_a
unfolding format_id same_text
slot_a-IsStored = record {
  k_size = refl;
  v_size = refl;
  k_word = omega arith;
  v_word = omega arith;
  scales = refl;
}

small-IsSnapshot : IsSnapshot small 1 9 (slot_a ∷ [])
small-IsSnapshot = record {
  some_positions = omega arith;
  fits = omega arith;
  token = omega arith;
  size = refl;
  stored = (slot_a-IsStored, tt);
}

small-IsWritable : IsWritable small 1 9 (slot_a ∷ slot_b ∷ [])
unfolding format_id same_text
small-IsWritable = record {
  config = small-IsConfig;
  some_positions = omega arith;
  fits = omega arith;
  known_format = ground arith;
  token = omega arith;
  stored = (slot_a-IsStored, tt);
}

abbrev small_file : List ℕ
small_file = print_snapshot small 1 9 (slot_a ∷ [])

are_bytes : List ℕ → Bool
are_bytes [] = true
are_bytes (b ∷ bs) = ltb b 256 && are_bytes bs

are_bytes_sound : (bs : List ℕ) → are_bytes bs ≡ true → All IsByte bs
unfolding are_bytes
are_bytes_sound [] h = tt
are_bytes_sound (b ∷ bs) h = (ground (arith, h), are_bytes_sound bs (ground (arith, h)))

body-IsByte : All IsByte (body small 1 9 (slot_a ∷ []))
unfolding format_id same_text are_bytes
body-IsByte = are_bytes_sound (body small 1 9 (slot_a ∷ [])) refl

small_file-IsByte : All IsByte small_file
small_file-IsByte =
    All-append IsByte (body small 1 9 (slot_a ∷ [])) (sha256 (body small 1 9 (slot_a ∷ [])))
      body-IsByte (sha256-IsByte (body small 1 9 (slot_a ∷ [])))

small_read :
    read_snapshot small [] small_file ≡ ok (record { cache = []; positions = 1; next_token = 9 })
small_read = read_snapshot-print small [] 1 9 (slot_a ∷ []) small-IsConfig small-IsSnapshot

read_snapshot-write_snapshot_example :
    (file : List ℕ) × (restored : Restored) × (write_snapshot small 1 9 (slot_a ∷ slot_b ∷ [])
      ≡ ok file)
    × (read_snapshot small (blank ∷ blank ∷ []) file ≡ ok restored)
    × (restored.positions ≡ 1)
    × (restored.next_token ≡ 9)
    × (get_or restored.cache 0 blank ≡ slot_a)
read_snapshot-write_snapshot_example =
    read_snapshot-write_snapshot small 1 9 (slot_a ∷ slot_b ∷ []) (blank ∷ blank ∷ []) 0
      small-IsWritable (omega arith)

read_snapshot_iff_example :
    (read_snapshot small [] small_file ≡ ok (record { cache = []; positions = 1; next_token = 9 }))
    ↔ ((ss : List Slot) × HasRead small [] small_file
          (record { cache = []; positions = 1; next_token = 9 })
          ss)
read_snapshot_iff_example =
    read_snapshot_iff small [] small_file (record { cache = []; positions = 1; next_token = 9 })
      small-IsConfig small_file-IsByte

read_snapshot-take_example : read_snapshot small [] (take 60 small_file) ≡ err payload_mismatch
read_snapshot-take_example =
    read_snapshot-take small [] small_file (record { cache = []; positions = 1; next_token = 9 }) 60
      small-IsConfig small_file-IsByte small_read
      (omega (arith, length-sha256 (body small 1 9 (slot_a ∷ []))))
