-- ===== src/Wasm/Sections.antt =====
-- How the parsing of a module ends.
use stellar_extract.Prelude.{
  ℕ, zero, suc, ◌+◌, ◌≤◌, ◌<◌, ◌≡◌, [], ◌∷◌, ◌++◌, arith, ltb, Text, length, drop, length-drop,
  Bool-cases, inl, inr,
}
use stellar_extract.Go.Ints.{ℤ, pos, negsuc, pos_part}
use stellar_extract.Wasm.{
  decode_leb128, WasmMetadata, no_metadata, Parse, parsed, panicked, out_of_fuel, end_of_section,
  bounded_section, sized_section, sections, is_wasm, parse_wasm_metadata,
}

abbrev pub Ends : Parse → Type 0
Ends (parsed m) = Unit
Ends panicked = Unit
Ends out_of_fuel = ⊥

bounded_section-Ends :
    (len : ℕ) (end : ℤ) (m : WasmMetadata) (next : Parse)
    → Ends next
    → Ends (bounded_section len end m next)
unfolding bounded_section
bounded_section-Ends len (negsuc n) m next h = tt
bounded_section-Ends len (pos end) m next h = elim (Bool-cases (ltb len end)) [
  | inl beyond ↦ rw beyond tt
  | inr within ↦ rw within h
]

sized_section-Ends :
    (len offset : ℕ) (size : ℤ) (m : WasmMetadata) (next : Parse)
    → Ends next
    → Ends (sized_section len offset size m next)
unfolding sized_section
sized_section-Ends len offset (negsuc n) m next h = tt
sized_section-Ends len offset (pos size) m next h =
    bounded_section-Ends len (end_of_section offset size) m next h

sections-Ends :
    (f len offset : ℕ) (rest : Text) (m : WasmMetadata)
    → length rest < f
    → Ends (sections f len offset rest m)
unfolding sections
sections-Ends zero len offset rest m h = absurd (omega arith)
sections-Ends (suc f) len offset [] m h = tt
sections-Ends (suc f) len offset (t ∷ []) m h = tt
sections-Ends (suc f) len offset (t ∷ b ∷ rest) m h =
    let (size, bytes_read) = decode_leb128 (b ∷ rest) in
    let rest' = drop bytes_read (b ∷ rest) in
    sized_section-Ends len (offset + 1 + bytes_read) size m _ (
      sections-Ends f len _ (drop (pos_part size) rest') _
        (omega (arith, length-drop (pos_part size) rest', length-drop bytes_read (b ∷ rest))))

header_dropped : (code : Text) → 8 ≤ length code → length (drop 8 code) < length code
header_dropped (a ∷ code) h = omega (arith, length-drop 7 code)
header_dropped [] h = absurd (omega arith)

pub parse_wasm_metadata-Ends : (code : Text) → Ends (parse_wasm_metadata code)
unfolding parse_wasm_metadata
parse_wasm_metadata-Ends code = elim (Bool-cases (ltb (length code) 8)) [
  | inl short ↦ rw short tt
  | inr enough ↦ elim (Bool-cases (is_wasm code)) [
    | inl magic ↦
        rw (enough, magic)
          (sections-Ends (length code) (length code) 8 (drop 8 code) no_metadata
            (header_dropped code (ground arith)))
    | inr other ↦ rw (enough, other) tt
  ]
]

abbrev pub header : Text
header = 0x00 ∷ 0x61 ∷ 0x73 ∷ 0x6D ∷ 1 ∷ 0 ∷ 0 ∷ 0 ∷ []

-- A module whose first section has from 64 to 127 bytes, a size that WebAssembly writes as that
-- one byte: nothing at all is read of the module.
pub parse_wasm_metadata-no_metadata :
    (t size : ℕ) (rest : Text)
    → 64 ≤ size
    → size < 128
    → parse_wasm_metadata (header ++ t ∷ size ∷ rest) ≡ parsed no_metadata
unfolding parse_wasm_metadata
parse_wasm_metadata-no_metadata t size rest low high = ground arith
