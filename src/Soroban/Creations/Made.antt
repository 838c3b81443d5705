-- ===== src/Soroban/Creations/Made.antt =====
-- Which rows the creations of a ledger are.
use stellar_extract.Prelude.{
  if◌then◌else◌, Bool, false, ℕ, ◌+◌, ◌≡◌, ◌⊎◌, inl, inr, refl, arith, true, Option, none, some,
  List, [], ◌∷◌, ◌++◌, Text, sym,
}
use mathlib.Core.Path.{subst}
use stellar_extract.Soroban.Creations.{
  Executable, CreationFunction, create_contract, create_contract_v2, other_function, MetaChange,
  CreationOperation, CreationTransaction, ContractCreationData, columns_of, is_creation,
  executable_of, creation_with_id, changes_of, first_created, creator_of, creation_data,
  operation_creation, operations_creations, creations_loop, extract_contract_creations,
}
use stellar_extract.Soroban.Creations.First.{
  HasChanges, has_changes, HasChanges_unique, IsFirst, first_created-IsFirst,
}
use stellar_extract.Soroban.Creations.Executables.{IsExecutable, columns_of-IsExecutable}
use stellar_extract.Xdr.{ok, Sdk}
use stellar_extract.Xdr.Ledger.{LedgerInput}

module _ (sdk : Sdk) (address_of : Text → Text) (executable_type_string : ℕ → Text)
    (input : LedgerInput) where
  -- The creator is the source of the operation, or that of the transaction where it has none.
  abbrev pub IsCreator : Option Text → Text → Text → Type 0
  IsCreator (some account) source creator = creator ≡ address_of account
  IsCreator none source creator = creator ≡ address_of source

  -- The row is of an operation at a position of the transaction.
  pub record Fits (tx : CreationTransaction) (i : ℕ) (op : CreationOperation)
      (row : ContractCreationData) : Type 0 where
    pub executable : Option Executable
    pub creates :
        (op.host_function ≡ some (create_contract executable))
        ⊎ (op.host_function ≡ some (create_contract_v2 executable))
    pub changes : List MetaChange
    pub changed : HasChanges tx.unsafe_meta i changes
    pub of_contract : IsFirst sdk changes row.contract_id
    pub of_creator : IsCreator op.source_account tx.source row.creator_address
    pub of_executable : IsExecutable sdk executable_type_string executable row.executable
    pub of_ledger : row.created_ledger ≡ input.sequence
    pub closed : row.created_at ≡ input.closed_at
    pub in_range : row.ledger_range ≡ input.ledger_range
    pub of_era : row.era_id ≡ input.era_id

  -- Each operation has one row if a row fits it, and no row otherwise.
  abbrev pub AreOfOperations :
      CreationTransaction → ℕ → List CreationOperation → List ContractCreationData → Type 0
  AreOfOperations tx i [] rows = rows ≡ []
  AreOfOperations tx i (op ∷ ops) rows =
      ((row : ContractCreationData) × (rest : List ContractCreationData) × (rows ≡ row ∷ rest)
        × Fits tx i op row
        × AreOfOperations tx (i + 1) ops rest)
      ⊎ (((row : ContractCreationData) → ¬ Fits tx i op row) × AreOfOperations tx (i + 1) ops rows)

  abbrev pub AreOfTransaction : CreationTransaction → Bool → List ContractCreationData → Type 0
  AreOfTransaction tx true rows = AreOfOperations tx 0 tx.operations rows
  AreOfTransaction tx false rows = rows ≡ []

  abbrev pub AreCreations : List CreationTransaction → List ContractCreationData → Type 0
  AreCreations [] rows = rows ≡ []
  AreCreations (tx ∷ txs) rows =
      (own : List ContractCreationData) × (rest : List ContractCreationData) × (rows ≡ own ++ rest)
      × AreOfTransaction tx tx.successful own
      × AreCreations txs rest

  -- What the loop's body makes of an operation.
  abbrev Outcome : CreationTransaction → ℕ → CreationOperation → List ContractCreationData → Type 0
  Outcome tx i op rows =
      ((row : ContractCreationData) × (rows ≡ row ∷ []) × Fits tx i op row)
      ⊎ ((rows ≡ []) × ((row : ContractCreationData) → ¬ Fits tx i op row))

  creator_of-IsCreator :
      (source : Text) (op : CreationOperation)
      → IsCreator op.source_account source
          (creator_of sdk address_of executable_type_string input source op)
  creator_of-IsCreator source op = ground arith

  creation-Outcome :
      (tx : CreationTransaction) (i : ℕ) (op : CreationOperation) (e : Option Executable)
      → (op.host_function ≡ some (create_contract e))
        ⊎ (op.host_function ≡ some (create_contract_v2 e))
      → executable_of op.host_function ≡ e
      → Outcome tx i op (
          creation_with_id sdk address_of executable_type_string input tx.source op (
            first_created sdk address_of executable_type_string input
              (changes_of tx.unsafe_meta i)))
  unfolding creation_data
  creation-Outcome tx i op e creates same_e =
      elim (first_created-IsFirst sdk address_of executable_type_string input
        (changes_of tx.unsafe_meta i)) [
          | inl (id, found, first) ↦ elim (has_changes tx.unsafe_meta i) [
            | inl (changes, has, same) ↦ inl (
              creation_data sdk address_of executable_type_string input tx.source op id,
              rw (found, creation_with_id) refl,
              record {
                executable = e;
                creates = creates;
                changes = changes;
                changed = has;
                of_contract = subst (λ c. IsFirst sdk c id) same first;
                of_creator = creator_of-IsCreator tx.source op;
                of_executable =
                    subst
                      (λ x.
                        IsExecutable sdk executable_type_string e
                          (columns_of sdk address_of executable_type_string input x))
                      (sym same_e)
                      (columns_of-IsExecutable sdk executable_type_string address_of input e);
                of_ledger = refl;
                closed = refl;
                in_range = refl;
                of_era = refl;
              },
            )
            | inr (empty, never) ↦ absurd (subst (λ c. IsFirst sdk c id) empty first)
          ]
          | inr (missing, never) ↦ inr (
            rw (missing, creation_with_id) refl,
            λ row f. never row.contract_id (
                subst (λ c. IsFirst sdk c row.contract_id)
                  (sym (HasChanges_unique tx.unsafe_meta i f.changes f.changed)) f.of_contract),
          )
        ]

  -- An operation that creates no contract.
  not_creation :
      (function : Option CreationFunction) (e : Option Executable)
      → is_creation function ≡ false
      → (function ≡ some (create_contract e)) ⊎ (function ≡ some (create_contract_v2 e))
      → ⊥
  not_creation function e other creates = ground arith

  operation_creation-Outcome :
      (tx : CreationTransaction) (i : ℕ) (account : Option Text)
      (function : Option CreationFunction)
      → let op : CreationOperation = record {
        source_account = account;
        host_function = function;
      } in
        Outcome tx i op (operation_creation sdk address_of executable_type_string input tx i op)
  unfolding operation_creation
  operation_creation-Outcome tx i account none =
      inr (refl, λ row f. not_creation none f.executable refl f.creates)
  operation_creation-Outcome tx i account (some other_function) =
      inr (refl, λ row f. not_creation (some other_function) f.executable refl f.creates)
  operation_creation-Outcome tx i account (some (create_contract e)) =
      creation-Outcome tx i
        (record { source_account = account; host_function = some (create_contract e) }) e (inl refl)
        refl
  operation_creation-Outcome tx i account (some (create_contract_v2 e)) =
      creation-Outcome tx i
        (record { source_account = account; host_function = some (create_contract_v2 e) }) e
        (inr refl) refl

  operations_creations-AreOfOperations :
      (tx : CreationTransaction) (i : ℕ) (ops : List CreationOperation)
      → AreOfOperations tx i ops
          (operations_creations sdk address_of executable_type_string input tx i ops)
  unfolding operations_creations
  operations_creations-AreOfOperations tx i [] = refl
  operations_creations-AreOfOperations tx i (op ∷ ops) =
      let more = operations_creations-AreOfOperations tx (i + 1) ops in
      elim (operation_creation-Outcome tx i op.source_account op.host_function) [
        | inl (row, made, fits) ↦ inl (
          row,
          operations_creations sdk address_of executable_type_string input tx (i + 1) ops,
          rw made refl,
          fits,
          more,
        )
        | inr (skipped, never) ↦ inr (
          never,
          subst
              (λ own. AreOfOperations tx (i + 1) ops (
                own
                ++ operations_creations sdk address_of executable_type_string input tx (i + 1) ops))
              (sym skipped) more,
        )
      ]

  of_transaction :
      (tx : CreationTransaction) (successful : Bool)
      → AreOfTransaction tx successful (
          if successful
          then operations_creations sdk address_of executable_type_string input tx 0 tx.operations
          else [])
  of_transaction tx true = operations_creations-AreOfOperations tx 0 tx.operations
  of_transaction tx false = refl

  creations_loop-AreCreations :
      (txs : List CreationTransaction)
      → AreCreations txs (creations_loop sdk address_of executable_type_string input txs)
  unfolding creations_loop
  creations_loop-AreCreations [] = refl
  creations_loop-AreCreations (tx ∷ txs) =
      (_, _, refl, of_transaction tx tx.successful, creations_loop-AreCreations txs)

  -- The creations are, transaction by transaction and operation by operation, one row for each
  -- operation of a successful transaction that a row fits, and none for any other: the operation
  -- creates a contract, and the row has the id of the first persistent contract data entry that the
  -- meta says it creates and whose contract can be encoded, the address of the operation's source,
  -- or else of the transaction's, and the columns of its executable.
  pub extract_contract_creations-AreCreations :
      (txs : List CreationTransaction)
      → AreCreations txs
          (extract_contract_creations sdk address_of executable_type_string input (ok txs))
  unfolding extract_contract_creations
  extract_contract_creations-AreCreations txs = creations_loop-AreCreations txs
