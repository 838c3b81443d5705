-- ===== src/Wasm/Numbers.antt =====
-- Numbers of one byte, and how many bytes a number takes.
use stellar_extract.Prelude.{
  ℕ, ◌+◌, ◌*◌, ◌%◌, ◌^◌, ◌≤◌, ◌<◌, ◌≡◌, [], ◌∷◌, arith, ltb, if◌then◌else◌, Text,
}
use stellar_extract.Go.Ints.{pos, sub_ℕ}
use stellar_extract.Wasm.{decode_loop, decode_leb128}

-- A byte below 128 stands for itself below 64, and from 64 on for itself less 128, although
-- WebAssembly means the byte itself.
pub decode_leb128_byte :
    (n : ℕ) (data' : Text)
    → n < 128
    → decode_leb128 (n ∷ data') ≡ ((if ltb n 64 then pos n else sub_ℕ n 128), 1)
unfolding decode_leb128 decode_loop
decode_leb128_byte n data' h = ground arith

decode_loop_reads :
    (result shift bytes_read : ℕ) (data' : Text)
    → bytes_read ≤ 10
    → bytes_read ≤ (decode_loop result shift bytes_read data').1
unfolding decode_loop
decode_loop_reads result shift bytes_read [] h = omega arith
decode_loop_reads result shift bytes_read (b ∷ data') h = ground (
  arith,
  decode_loop_reads ((result + b % 128 * 2 ^ shift) % 2 ^ 64) (shift + 7) (bytes_read + 1) data',
)

-- A number takes at least one byte where there is one.
pub decode_leb128_reads : (b : ℕ) (data' : Text) → 1 ≤ (decode_leb128 (b ∷ data')).1
unfolding decode_leb128 decode_loop
decode_leb128_reads b data' = ground (arith, decode_loop_reads (b % 128 % 2 ^ 64) 7 1 data')
