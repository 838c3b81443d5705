-- ===== src/Soroban/Events/Counted.antt =====
-- The rows of one transaction are counted, and their ids with them.
use stellar_extract.Prelude.{
  ℕ, ◌+◌, ◌%◌, ◌^◌, ◌≤◌, ◌<◌, ◌≡◌, ◌≢◌, refl, List, [], ◌∷◌, ◌++◌, arith, Text, All, All-append,
  All-map, length, sym, ◌∙◌,
}
use stellar_extract.Go.Strings.{decimal, hex_encode}
use stellar_extract.Go.Strings.Decimal.{decimal_injective}
use stellar_extract.Go.Strings.Separators.{Lacks, split_first}
use stellar_extract.Soroban.Bodies.{EmittedEvent, EventSdk}
use stellar_extract.Soroban.Events.{
  ContractEventData, TransactionEvents, Emitted, OfTransaction, emit, diagnostic_row,
  operation_event_row, transaction_event_row, emit_each, operations_loop, event_rows,
}
use stellar_extract.Xdr.Ledger.{LedgerInput}

-- No two rows have one id.
abbrev pub HaveDistinctIds : List ContractEventData → Type 0
HaveDistinctIds [] = Unit
HaveDistinctIds (row ∷ rows) =
    All (λ other. other.event_id ≢ row.event_id) rows × HaveDistinctIds rows

abbrev pub operation_event_count : List (List EmittedEvent) → ℕ
operation_event_count [] = 0
operation_event_count (es ∷ ops) = length es + operation_event_count ops

abbrev pub event_count : TransactionEvents → ℕ
event_count e =
    length e.diagnostic_events
    + operation_event_count e.operation_events
    + length e.transaction_events

snoc-HaveDistinctIds :
    (rows : List ContractEventData) (row : ContractEventData)
    → All (λ other. row.event_id ≢ other.event_id) rows
    → HaveDistinctIds rows
    → HaveDistinctIds (rows ++ row ∷ [])
snoc-HaveDistinctIds [] row h d = (tt, tt)
snoc-HaveDistinctIds (r ∷ rows) row (n, h) (a, d) =
    (All-append _ rows (row ∷ []) a (n, tt), snoc-HaveDistinctIds rows row h d)

pub hex_encode-Lacks : (s : Text) → Lacks b':' (hex_encode s)
unfolding hex_encode
hex_encode-Lacks [] = tt
hex_encode-Lacks (c ∷ s) = ground (arith, hex_encode-Lacks s)

-- The id is made of the hash, which holds no colon, and of the index.
pub record IsPlain (row : ContractEventData) : Type 0 where
  pub id : row.event_id ≡ row.transaction_hash ++ (b':' ∷ decimal row.event_index)
  pub plain : Lacks b':' row.transaction_hash

-- Rows that agree in id agree in hash and index.
same_id :
    (a b : ContractEventData)
    → IsPlain a
    → IsPlain b
    → a.event_id ≡ b.event_id
    → (a.transaction_hash ≡ b.transaction_hash) × (a.event_index ≡ b.event_index)
same_id a b ha hb e =
    let (hash, index) =
      split_first b':' a.transaction_hash b.transaction_hash _ _ ha.plain hb.plain
        (sym ha.id ∙ e ∙ hb.id) in
    (hash, decimal_injective a.event_index b.event_index index)

-- A row so far, while the rows of the transaction with hash `h` are made: if it is of that
-- transaction its index is below `i`, and its hash is not that of a later transaction.
pub record IsEarlier (Later : Text → Type 0) (h : Text) (i : ℕ) (row : ContractEventData)
    : Type 0 where
  pub made : IsPlain row
  pub not_later : Later row.transaction_hash
  pub below : row.transaction_hash ≡ h → row.event_index < i

-- The state, with `n` events of the transaction at most to come.
pub record IsCounted (Later : Text → Type 0) (h : Text) (n : ℕ) (s : Emitted) : Type 0 where
  pub earlier : All (IsEarlier Later h s.event_index) s.rows
  pub distinct : HaveDistinctIds s.rows
  pub room : s.event_index + n < 2 ^ 32

module _ (Later : Text → Type 0) (h : Text) (lacks : Lacks b':' h) (later : Later h) where
  less_room : (n m : ℕ) (s : Emitted) → n ≤ m → IsCounted Later h m s → IsCounted Later h n s
  less_room n m s le c = record {
    earlier = c.earlier;
    distinct = c.distinct;
    room = omega (arith, c.room);
  }

  emit-IsCounted :
      (n m : ℕ) (row : ContractEventData) (s : Emitted)
      → n + 1 ≤ m
      → row.event_id ≡ h ++ (b':' ∷ decimal s.event_index)
      → row.transaction_hash ≡ h
      → row.event_index ≡ s.event_index
      → IsCounted Later h m s
      → IsCounted Later h n (emit row s)
  emit-IsCounted n m row s le id hash index c =
      let room : s.event_index + m < 2 ^ 32 = c.room in
      let made : IsPlain row = record { id = rw (hash, index) id; plain = rw hash lacks } in
      let next : (s.event_index + 1) % 2 ^ 32 ≡ s.event_index + 1 = omega arith in
      record {
        earlier =
            All-append (IsEarlier Later h ((s.event_index + 1) % 2 ^ 32)) s.rows (row ∷ [])
              (All-map (IsEarlier Later h s.event_index) _ s.rows
                (λ r e. record {
                  made = e.made;
                  not_later = e.not_later;
                  below =
                      λ same. let b : r.event_index < s.event_index = e.below same in omega arith;
                })
                c.earlier)
              (record { made = made; not_later = rw hash later; below = λ same. omega arith }, tt);
        distinct =
            snoc-HaveDistinctIds s.rows row
              (All-map (IsEarlier Later h s.event_index) _ s.rows
                (λ r e same.
                  let (hashes, indexes) = same_id row r made e.made same in
                  let b : r.event_index < s.event_index = e.below (sym hashes ∙ hash) in
                  omega arith)
                c.earlier)
              c.distinct;
        room = omega arith;
      }

  -- Rows of the transaction that are numbered with the index of the state.
  abbrev AreNumbered : {A : Type 0} → (A → Emitted → ContractEventData) → Type 0
  AreNumbered {A} row =
      (x : A) (s : Emitted)
      → ((row x s).event_id ≡ h ++ (b':' ∷ decimal s.event_index))
        × ((row x s).transaction_hash ≡ h)
        × ((row x s).event_index ≡ s.event_index)

  emit_each-IsCounted :
      {A : Type 0} (row : A → Emitted → ContractEventData)
      → AreNumbered row
      → (xs : List A) (n m : ℕ) (s : Emitted) → length xs + n ≤ m
      → IsCounted Later h m s
      → IsCounted Later h n (emit_each row xs s)
  unfolding emit_each
  emit_each-IsCounted row num [] n m s le c = less_room n m s (omega arith) c
  emit_each-IsCounted row num (x ∷ xs) n m s le c =
      let (id, hash, index) = num x s in
      emit_each-IsCounted row num xs n (length xs + n) (emit (row x s) s) (omega arith)
        (emit-IsCounted (length xs + n) m (row x s) s (omega arith) id hash index c)

  module _ (sdk : EventSdk) (clock : ℕ → ℕ) (input : LedgerInput) (tx : OfTransaction)
      (is : tx.tx_hash ≡ h) where
    rows-AreNumbered :
        AreNumbered (diagnostic_row sdk clock input tx)
        × ((op : ℕ) → AreNumbered (operation_event_row sdk clock input tx op))
        × AreNumbered (transaction_event_row sdk clock input tx)
    unfolding diagnostic_row operation_event_row transaction_event_row
    rows-AreNumbered = (
      λ d s. (rw is refl, is, refl),
      λ op e s. (rw is refl, is, refl),
      λ e s. (rw is refl, is, refl),
    )

    operations-IsCounted :
        (op : ℕ) (ops : List (List EmittedEvent)) (n m : ℕ) (s : Emitted)
        → operation_event_count ops + n ≤ m
        → IsCounted Later h m s
        → IsCounted Later h n (operations_loop sdk clock input tx op ops s)
    unfolding operations_loop
    operations-IsCounted op [] n m s le c = less_room n m s (omega arith) c
    operations-IsCounted op (es ∷ ops) n m s le c =
        operations-IsCounted (op + 1) ops n (operation_event_count ops + n) _ (omega arith) (
          emit_each-IsCounted _ (rows-AreNumbered.1 op) es (operation_event_count ops + n) m s
            (omega arith) c)

    pub event_rows-IsCounted :
        (events : TransactionEvents) (s : Emitted)
        → IsCounted Later h (event_count events) (record s { event_index = 0 })
        → IsCounted Later h 0 (event_rows sdk clock input tx events s)
    unfolding event_rows
    event_rows-IsCounted events s c =
        emit_each-IsCounted _ rows-AreNumbered.2 events.transaction_events 0
          (length events.transaction_events) _ (omega arith)
          (operations-IsCounted 0 events.operation_events (length events.transaction_events)
            (operation_event_count events.operation_events + length events.transaction_events) _
            (omega arith)
            (emit_each-IsCounted _ rows-AreNumbered.0 events.diagnostic_events
              (operation_event_count events.operation_events + length events.transaction_events)
              (event_count events) _ (omega arith) c))
