-- ===== src/ScVal/Json/Lookup.antt =====
-- Looking a field up behind an assignment.
use stellar_extract.Prelude.{
  ◌≡◌, refl, false, some, Text, text_ordered, ◌==◌, eq_refl, Bool-cases, eq→path, inl, inr,
}
use stellar_extract.ScVal.Json.{Json, Fields, end, field, get_field, put_field}

pub get_field-put_other :
    (j k : Text) (v : Json) (fs : Fields)
    → (j == k) ≡ false
    → get_field k (put_field j v fs) ≡ get_field k fs
get_field-put_other j k v end ne = rw ne refl
get_field-put_other j k v (field i w fs) ne = elim (Bool-cases (i == j)) [
  | inl same ↦ rw (same, eq→path i j same, ne) refl
  | inr other ↦ rw other (elim (Bool-cases (i == k)) [
    | inl found ↦ rw found refl
    | inr later ↦ rw later (get_field-put_other j k v fs ne)
  ])
]

pub get_field-put_self :
    (k : Text) (v : Json) (fs : Fields) → get_field k (put_field k v fs) ≡ some v
get_field-put_self k v end = rw (eq_refl k) refl
get_field-put_self k v (field i w fs) = elim (Bool-cases (i == k)) [
  | inl same ↦ rw (same, eq_refl k) refl
  | inr other ↦ rw (other, other) (get_field-put_self k v fs)
]
