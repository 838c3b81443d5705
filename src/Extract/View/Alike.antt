-- ===== src/Extract/View/Alike.antt =====
-- A ledger gives the same results through a view as directly.
use stellar_extract.Prelude.{ℕ, ◌≡◌, refl, sym, ◌↔◌, ◌*◌, ◌/◌, none, Option-cases, inl, inr, Text}
use mathlib.Core.Path.{subst}
use stellar_extract.Extract.{Outcome, LedgerData, new_ledger_input}
use stellar_extract.Extract.View.{
  LedgerSdk, ParsedInput, LedgerViewInput, view_of, new_ledger_view_input, decode,
  new_ledger_input_from_xdr, ExtractAllOf, ExtractAllFromXdr, ExtractAllView,
}
use stellar_extract.Xdr.{ok, ok-injective, err-ne-ok, Result-cases}

module _ {M : Type 0} (sdk : LedgerSdk M) where
  -- A view reads off the bytes what is in the ledger that they decode to.
  pub record ReadsAlike : Type 0 where
    pub same_sequence :
        (bytes : Text) (lcm : M) (sequence : ℕ)
        → sdk.unmarshal_binary bytes ≡ ok lcm
        → sdk.ledger_sequence bytes ≡ ok sequence
        → sequence ≡ sdk.sequence_of lcm
    pub same_close_time :
        (bytes : Text) (lcm : M) (closed_at : ℕ)
        → sdk.unmarshal_binary bytes ≡ ok lcm
        → sdk.ledger_close_time bytes ≡ ok closed_at
        → closed_at ≡ sdk.close_time_of lcm

  viewed : Text → Text → ℕ → ℕ → LedgerViewInput
  viewed bytes network sequence closed_at = record {
    network_passphrase = network;
    fields = record {
      sequence = sequence;
      closed_at = closed_at;
      ledger_range = sequence / 10000 * 10000;
      era_id = none;
    };
    view = bytes;
  }

  viewed-decode :
      (bytes network : Text) (sequence closed_at : ℕ)
      → ReadsAlike
      → sdk.ledger_sequence bytes ≡ ok sequence
      → sdk.ledger_close_time bytes ≡ ok closed_at
      → decode sdk (viewed bytes network sequence closed_at)
        ≡ new_ledger_input_from_xdr sdk bytes network
  unfolding viewed decode new_ledger_input_from_xdr new_ledger_input
  viewed-decode bytes network sequence closed_at alike s c =
      elim (Result-cases (sdk.unmarshal_binary bytes)) [
        | inl (e, bad) ↦ rw bad refl
        | inr (lcm, parsed) ↦
            rw
              (
                parsed,
                alike.same_sequence bytes lcm sequence parsed s,
                alike.same_close_time bytes lcm closed_at parsed c,
              )
              refl
      ]

  view_of-decode :
      (bytes network : Text) (input : LedgerViewInput)
      → ReadsAlike
      → view_of sdk bytes network ≡ ok input
      → decode sdk input ≡ new_ledger_input_from_xdr sdk bytes network
  unfolding view_of viewed
  view_of-decode bytes network input alike h = elim (Result-cases (sdk.ledger_sequence bytes)) [
    | inl (e, bad) ↦ absurd (err-ne-ok _ input (rw bad at h))
    | inr (sequence, s) ↦ elim (Result-cases (sdk.ledger_close_time bytes)) [
      | inl (e, bad) ↦ absurd (err-ne-ok _ input (rw (s, bad) at h))
      | inr (closed_at, c) ↦
          subst (λ v. decode sdk v ≡ new_ledger_input_from_xdr sdk bytes network)
            (ok-injective (viewed bytes network sequence closed_at) input (rw (s, c) at h))
            (viewed-decode bytes network sequence closed_at alike s c)
    ]
  ]

  new_ledger_view_input-decode :
      (bytes network : Text) (input : LedgerViewInput)
      → ReadsAlike
      → new_ledger_view_input sdk bytes network ≡ ok input
      → decode sdk input ≡ new_ledger_input_from_xdr sdk bytes network
  unfolding new_ledger_view_input
  new_ledger_view_input-decode bytes network input alike h =
      elim (Option-cases (sdk.validate_full bytes)) [
        | inl valid ↦
            view_of-decode bytes network input alike (rw (valid, new_ledger_view_input) at h)
        | inr (e, bad) ↦ absurd (err-ne-ok _ input (rw (bad, new_ledger_view_input) at h))
      ]

  -- Where a view reads the sequence number and the close time that the decoded ledger has, and the
  -- bytes make a view, extracting from the view can return exactly what extracting from the bytes
  -- can, whatever the extractors do; where the bytes cannot be decoded, both return the one error.
  pub ExtractAllView-alike :
      {R : Type 0} (outcome : ParsedInput M → Text → Outcome R) (bytes network : Text)
      (input : LedgerViewInput) (result : LedgerData R)
      → ReadsAlike
      → new_ledger_view_input sdk bytes network ≡ ok input
      → ExtractAllView sdk outcome input result ↔ ExtractAllFromXdr sdk outcome bytes network result
  unfolding ExtractAllView ExtractAllFromXdr
  ExtractAllView-alike outcome bytes network input result alike h =
      let same = new_ledger_view_input-decode bytes network input alike h in
      (
        subst (λ parsed. ExtractAllOf sdk outcome parsed result) same,
        subst (λ parsed. ExtractAllOf sdk outcome parsed result) (sym same),
      )
