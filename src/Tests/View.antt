-- ===== src/Tests/View.antt =====
-- Examples of view_input.go.
use stellar_extract.Prelude.{◌↔◌, refl, sym, ◌∙◌, ap, none, Text, length}
use stellar_extract.Extract.{extracted, no_data}
use stellar_extract.Extract.View.{
  LedgerSdk, LedgerViewInput, view_of, new_ledger_view_input, ExtractAllFromXdr, ExtractAllView,
}
use stellar_extract.Extract.View.Alike.{ReadsAlike, ExtractAllView-alike}
use stellar_extract.Go.Strings.{codes}
use stellar_extract.Xdr.{ok, ok-injective}

-- The sequence number is the number of bytes.
abbrev ledger_sdk : LedgerSdk Text
ledger_sdk = record {
  validate_full = λ bytes. none;
  ledger_sequence = λ bytes. ok (length bytes);
  ledger_close_time = λ bytes. ok 900;
  unmarshal_binary = λ bytes. ok bytes;
  sequence_of = λ lcm. length lcm;
  close_time_of = λ lcm. 900;
}

ledger_sdk-ReadsAlike : ReadsAlike ledger_sdk
ledger_sdk-ReadsAlike = record {
  same_sequence = λ bytes lcm sequence parsed read.
      sym (ok-injective (length bytes) sequence read) ∙ ap length (ok-injective bytes lcm parsed);
  same_close_time = λ bytes lcm closed_at parsed read. sym (ok-injective 900 closed_at read);
}

abbrev view_input : LedgerViewInput
view_input = record {
  network_passphrase = codes "net";
  fields = record { sequence = 3; closed_at = 900; ledger_range = 0; era_id = none };
  view = codes "xdr";
}

ExtractAllView-alike_example :
    ExtractAllView ledger_sdk (λ parsed name. extracted parsed.fields.sequence) view_input no_data
    ↔ ExtractAllFromXdr ledger_sdk
        (λ parsed name. extracted parsed.fields.sequence)
        (codes "xdr")
        (codes "net")
        no_data
unfolding new_ledger_view_input view_of
ExtractAllView-alike_example =
    ExtractAllView-alike ledger_sdk (λ parsed name. extracted parsed.fields.sequence) (codes "xdr")
      (codes "net") view_input no_data ledger_sdk-ReadsAlike refl
