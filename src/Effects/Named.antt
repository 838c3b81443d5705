-- ===== src/Effects/Named.antt =====
-- effects.go: whether the type of an effect has a name.
pub mod Parts
pub mod Options
pub mod Shared
pub mod Entries
pub mod Whole
use stellar_extract.Prelude.{
  ℕ, ◌≡◌, refl, Bool, true, false, not, ◌&&◌, Option, none, some, List, [], ◌∷◌, ◌++◌, map, Text,
  text_ordered, nat_ordered, ◌==◌, if◌then◌else◌, is_some, All, All-append, Bool-cases, inl, inr,
}
use stellar_extract.Effects.{EffectRecord}
use stellar_extract.Effects.Names.{effect_type_names, effect_type_name}
use stellar_extract.Go.Maps.{get}

-- The map of names has a name for the type.
pub is_named : ℕ → Bool
is_named t = elim (get t effect_type_names) [
  | none ↦ false
  | some [] ↦ false
  | some (c ∷ name) ↦ true
]

abbrev pub IsNamed : EffectRecord → Type 0
IsNamed e = is_named e.effect_type ≡ true

abbrev pub AllNamed : List EffectRecord → Type 0
AllNamed = All IsNamed

pub AllNamed-append : (xs ys : List EffectRecord) → AllNamed xs → AllNamed ys → AllNamed (xs ++ ys)
AllNamed-append = All-append IsNamed
