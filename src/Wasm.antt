-- ===== src/Wasm.antt =====
-- soroban.go, types_soroban.go: `parseWASMMetadata` and the numbers that it reads.
pub mod Numbers
pub mod Sections
use stellar_extract.Prelude.{
  ℕ, zero, suc, ◌+◌, ◌-◌, ◌*◌, ◌%◌, ◌^◌, Bool, true, false, ◌&&◌, Option, none, some, List, [], ◌∷◌,
  ltb, leb, if◌then◌else◌, Text, length, take, drop, ◌==◌, nat_ordered,
}
use stellar_extract.Go.Ints.{ℤ, pos, negsuc, to_i64, pos_part}

pub record WasmMetadata : Type 0 where
  pub n_instructions : Option ℤ
  pub n_functions : Option ℤ
  pub n_globals : Option ℤ
  pub n_table_entries : Option ℤ
  pub n_types : Option ℤ
  pub n_imports : Option ℤ
  pub n_exports : Option ℤ
  pub n_elem_segments : Option ℤ
  pub n_data_segments : Option ℤ
  pub n_data_segment_bytes : Option ℤ

abbrev pub no_metadata : WasmMetadata
no_metadata = record {
  n_instructions = none;
  n_functions = none;
  n_globals = none;
  n_table_entries = none;
  n_types = none;
  n_imports = none;
  n_exports = none;
  n_elem_segments = none;
  n_data_segments = none;
  n_data_segment_bytes = none;
}

-- `result |= -(1 << s)`: the bits from `s` up are not set before; a shift of 64 or more gives 0
abbrev with_sign : ℕ → ℕ → ℕ
with_sign result s = if ltb s 64 then result + (2 ^ 64 - 2 ^ s) else result

-- The loop. `result` is the bit pattern of the int64; the bits of a byte go where none is set, so
-- that `|` is `+`, and those beyond bit 63 are lost.
decode_loop : ℕ → ℕ → ℕ → Text → ℤ × ℕ
decode_loop result shift bytes_read [] = (pos 0, bytes_read)
decode_loop result shift bytes_read (b ∷ data') =
    let result' = (result + b % 128 * 2 ^ shift) % 2 ^ 64 in
    let later = decode_loop result' (shift + 7) (bytes_read + 1) data' in
    if ltb bytes_read 10
    then (if ltb b 128
        then (
          to_i64 (if ltb shift 64 && leb 64 b then with_sign result' (shift + 7) else result'),
          bytes_read + 1,
        )
        else later)
    else (pos 0, bytes_read)

unfoldable pub decode_leb128 : Text → ℤ × ℕ
unfolding decode_loop
decode_leb128 data' = decode_loop 0 0 0 data'

unfoldable pub count_wasm_elements : Text → ℤ
unfolding decode_leb128
count_wasm_elements [] = pos 0
count_wasm_elements (b ∷ data') = (decode_leb128 (b ∷ data')).0

abbrev is_positive : ℤ → Bool
is_positive (pos n) = ltb 0 n
is_positive (negsuc n) = Bool.false

-- the switch on the section's type
record_section : ℕ → Text → WasmMetadata → WasmMetadata
unfolding count_wasm_elements
record_section t data' m =
    let count = count_wasm_elements data' in
    if t == 1
    then record m { n_types = some count }
    else if t == 2
    then record m { n_imports = some count }
    else if t == 3
    then record m { n_functions = some count }
    else if t == 4
    then record m { n_table_entries = some count }
    else if t == 6
    then record m { n_globals = some count }
    else if t == 7
    then record m { n_exports = some count }
    else if t == 9
    then record m { n_elem_segments = some count }
    else if t == 10
    then (if is_positive count then record m { n_instructions = some (pos (length data')) } else m)
    else if t == 11
    then record m { n_data_segments = some count; n_data_segment_bytes = some (pos (length data')) }
    else m

-- How parsing ends. Slicing out of range panics; `out_of_fuel` is not reached.
pub data Parse : Type 0 where
  parsed : WasmMetadata → Parse
  panicked out_of_fuel : Parse

-- `offset+int(sectionSize)`, which wraps
abbrev pub end_of_section : ℕ → ℕ → ℤ
end_of_section offset size = to_i64 ((offset + size) % 2 ^ 64)

-- an end beyond the code breaks off; a negative end is not beyond it, but slicing to it panics
bounded_section : ℕ → ℤ → WasmMetadata → Parse → Parse
bounded_section len (negsuc n) m next = panicked
bounded_section len (pos end) m next = if ltb len end then parsed m else next

-- a negative size breaks off
sized_section : ℕ → ℕ → ℤ → WasmMetadata → Parse → Parse
unfolding bounded_section
sized_section len offset (negsuc n) m next = parsed m
sized_section len offset (pos size) m next = bounded_section len (end_of_section offset size) m next

-- The loop. `rest` is what is left of the code from `offset` on, `len` the length of the code.
unfoldable pub sections : ℕ → ℕ → ℕ → Text → WasmMetadata → Parse
unfolding decode_leb128 record_section sized_section
sections zero len offset rest m = out_of_fuel
sections (suc f) len offset [] m = parsed m
sections (suc f) len offset (t ∷ []) m = parsed m
sections (suc f) len offset (t ∷ b ∷ rest) m =
    let (size, bytes_read) = decode_leb128 (b ∷ rest) in
    let offset' = offset + 1 + bytes_read in
    let rest' = drop bytes_read (b ∷ rest) in
    let next =
      sections f len (offset' + pos_part size) (drop (pos_part size) rest')
        (record_section t (take (pos_part size) rest') m) in
    sized_section len offset' size m next

-- the magic number
abbrev is_wasm : Text → Bool
is_wasm (b0 ∷ b1 ∷ b2 ∷ b3 ∷ code) = b0 == 0x00 && b1 == 0x61 && b2 == 0x73 && b3 == 0x6D
is_wasm code = false

unfoldable pub parse_wasm_metadata : Text → Parse
unfolding sections
parse_wasm_metadata wasm_code =
    let body = sections (length wasm_code) (length wasm_code) 8 (drop 8 wasm_code) no_metadata in
    if ltb (length wasm_code) 8
    then parsed no_metadata
    else if is_wasm wasm_code
    then body
    else parsed no_metadata
