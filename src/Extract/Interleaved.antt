-- ===== src/Extract/Interleaved.antt =====
-- The result of all extractors does not depend on the order in which they end.
use stellar_extract.Prelude.{
  ℕ, ◌+◌, ◌≡◌, refl, sym, ◌∙◌, ap, Bool, true, false, ◌&&◌, not, Option, none, some, List, [], ◌∷◌,
  ◌++◌, arith, if◌then◌else◌, Text, text_ordered, ◌==◌, eq→path, Bool-cases, inl, inr,
}
use mathlib.Core.Path.{subst}
use stellar_extract.Go.Strings.{codes}
use stellar_extract.Go.Maps.{get, get-put}
use stellar_extract.Go.Slices.{contains, IsDistinct}
use stellar_extract.Extract.{
  Outcome, extracted, failed, panicked, LedgerData, no_data, Task, finish, Pick, first, later, Runs,
  all_done, one_ends, extractors, tasks_of, ExtractAll,
}

abbrev pub count : Text → List Text → ℕ
count e [] = 0
count e (x ∷ xs) = (if x == e then 1 else 0) + count e xs

count-append : (e : Text) (xs ys : List Text) → count e (xs ++ ys) ≡ count e xs + count e ys
count-append e [] ys = omega arith
count-append e (x ∷ xs) ys = omega (arith, count-append e xs ys)

is_distinct : List Text → Bool
is_distinct [] = true
is_distinct (x ∷ xs) = not (contains x xs) && is_distinct xs

is_distinct-IsDistinct : (xs : List Text) → is_distinct xs ≡ true → IsDistinct xs
unfolding is_distinct
is_distinct-IsDistinct [] h = tt
is_distinct-IsDistinct (x ∷ xs) h = ground (arith, is_distinct-IsDistinct xs)

extractors-IsDistinct : IsDistinct extractors
extractors-IsDistinct = is_distinct-IsDistinct extractors (unfold is_distinct in refl)

module _ {R : Type 0} where
  abbrev pub rows_if : Outcome R → Option R
  rows_if (extracted rows) = some rows
  rows_if (failed e) = none
  rows_if (panicked e) = none

  abbrev pub message_of : Text → Outcome R → List Text
  message_of name (extracted rows) = []
  message_of name (failed e) = (name ++ (b':' ∷ b' ' ∷ e)) ∷ []
  message_of name (panicked e) = (codes "panic in " ++ (name ++ (b':' ∷ b' ' ∷ e))) ∷ []

  -- The messages in the order in which the extractors are started.
  abbrev pub messages : List (Task R) → List Text
  messages [] = []
  messages ((name, outcome) ∷ ts) = message_of name outcome ++ messages ts

  abbrev names : List (Task R) → List Text
  names [] = []
  names ((name, outcome) ∷ ts) = name ∷ names ts

  abbrev or : Option R → Option R → Option R
  or none o = o
  or (some r) o = some r

  -- The rows that a task stores under a name.
  abbrev stores : Task R → Text → Option R
  stores (name, outcome) k = if name == k then rows_if outcome else none

  abbrev rows_for : Text → List (Task R) → Option R
  rows_for k [] = none
  rows_for k (t ∷ ts) = or (stores t k) (rows_for k ts)

  or_assoc : (a b c : Option R) → or a (or b c) ≡ or (or a b) c
  or_assoc none b c = refl
  or_assoc (some r) b c = refl

  or-none : (a g : Option R) → or a g ≡ or (or a none) g
  or-none none g = refl
  or-none (some r) g = refl

  or-nothing : (a : Option R) → or a none ≡ a
  or-nothing none = refl
  or-nothing (some r) = refl

  or_same : (a : Option R) (b : Bool) → or a (if b then a else none) ≡ a
  or_same none true = refl
  or_same none false = refl
  or_same (some r) b = refl

  finish-get :
      (t : Task R) (s : LedgerData R) (k : Text)
      → get k (finish t s).tables ≡ or (stores t k) (get k s.tables)
  unfolding finish
  finish-get (name, extracted rows) s k = ground (arith, get-put name k rows s.tables)
  finish-get (name, failed e) s k = ground arith
  finish-get (name, panicked e) s k = ground arith

  finish-count :
      (t : Task R) (s : LedgerData R) (e : Text)
      → count e (finish t s).errs ≡ count e s.errs + count e (message_of t.0 t.1)
  unfolding finish
  finish-count (name, extracted rows) s e = omega arith
  finish-count (name, failed m) s e = count-append e s.errs _
  finish-count (name, panicked m) s e = count-append e s.errs _

  rows_for-none :
      (k : Text) (ts : List (Task R)) → contains k (names ts) ≡ false → rows_for k ts ≡ none
  rows_for-none k [] h = refl
  rows_for-none k ((name, outcome) ∷ ts) h = ground (arith, rows_for-none k ts)

  -- What a task stores under a name does not clash with what the others store.
  stores_alone :
      (t : Task R) (ts : List (Task R)) (k : Text)
      → contains t.0 (names ts) ≡ false
      → (g : Option R)
      → or (rows_for k ts) (or (stores t k) g) ≡ or (or (stores t k) (rows_for k ts)) g
  stores_alone (name, outcome) ts k fresh g = elim (Bool-cases (name == k)) [
    | inl same ↦
        let missing : rows_for k ts ≡ none =
          rows_for-none k ts
            (ap (λ x. contains x (names ts)) (sym (eq→path name k same)) ∙ fresh) in
        rw (missing, same) (or-none (rows_if outcome) g)
    | inr other ↦ rw other refl
  ]

  contains-Pick :
      (t : Task R) (ts ts' : List (Task R)) (x : Text)
      → Pick t ts ts'
      → contains x (names ts) ≡ false
      → contains x (names ts') ≡ false
  contains-Pick t (u ∷ ts) ts' x first h = ground arith
  contains-Pick t (u ∷ ts) (v ∷ ts') x (later p) h = ground (arith, contains-Pick t ts ts' x p)
  contains-Pick t [] ts' x p h = elim p [ ]

  IsDistinct-Pick :
      (t : Task R) (ts ts' : List (Task R))
      → Pick t ts ts'
      → IsDistinct (names ts)
      → IsDistinct (names ts')
  IsDistinct-Pick t [] ts' p h = elim p [ ]
  IsDistinct-Pick t (u ∷ ts) ts' first (fresh, h) = h
  IsDistinct-Pick t (u ∷ ts) (v ∷ ts') (later p) (fresh, h) =
      (contains-Pick t ts ts' u.0 p fresh, IsDistinct-Pick t ts ts' p h)

  rows_for-Pick :
      (t : Task R) (ts ts' : List (Task R)) (k : Text)
      → Pick t ts ts'
      → IsDistinct (names ts)
      → (g : Option R) → or (rows_for k ts') (or (stores t k) g) ≡ or (rows_for k ts) g
  rows_for-Pick t [] ts' k p h g = elim p [ ]
  rows_for-Pick t (u ∷ ts) ts' k first (fresh, h) g = stores_alone t ts k fresh g
  rows_for-Pick t (u ∷ ts) (v ∷ ts') k (later p) (fresh, h) g =
      ground (arith, rows_for-Pick t ts ts' k p h g)

  messages-Pick :
      (t : Task R) (ts ts' : List (Task R)) (e : Text)
      → Pick t ts ts'
      → count e (messages ts) ≡ count e (message_of t.0 t.1) + count e (messages ts')
  messages-Pick t [] ts' e p = elim p [ ]
  messages-Pick t (u ∷ ts) ts' e first = count-append e (message_of t.0 t.1) (messages ts)
  messages-Pick t (u ∷ ts) (v ∷ ts') e (later p) = omega (
    arith,
    messages-Pick t ts ts' e p,
    count-append e (message_of u.0 u.1) (messages ts),
    count-append e (message_of u.0 u.1) (messages ts'),
  )

  Runs-rows :
      (ts : List (Task R)) (s s' : LedgerData R)
      → Runs ts s s'
      → IsDistinct (names ts)
      → (k : Text) → get k s'.tables ≡ or (rows_for k ts) (get k s.tables)
  Runs-rows [] s s' all_done h k = refl
  Runs-rows ts s s' (one_ends t {ts' = ts'} p r) h k =
      Runs-rows ts' (finish t s) s' r (IsDistinct-Pick t ts ts' p h) k
      ∙ ap (or (rows_for k ts')) (finish-get t s k)
      ∙ rows_for-Pick t ts ts' k p h (get k s.tables)

  Runs-messages :
      (ts : List (Task R)) (s s' : LedgerData R)
      → Runs ts s s'
      → (e : Text) → count e s'.errs ≡ count e s.errs + count e (messages ts)
  Runs-messages [] s s' all_done e = omega arith
  Runs-messages ts s s' (one_ends t {ts' = ts'} p r) e =
      omega (
        arith,
        Runs-messages ts' (finish t s) s' r e,
        finish-count t s e,
        messages-Pick t ts ts' e p,
      )

  module _ (outcome : Text → Outcome R) where
    rows_for-tasks_of :
        (k : Text) (ns : List Text)
        → rows_for k (tasks_of outcome ns) ≡ (if contains k ns then rows_if (outcome k) else none)
    rows_for-tasks_of k [] = refl
    rows_for-tasks_of k (n ∷ ns) = elim (Bool-cases (n == k)) [
      | inl same ↦
          let e : n ≡ k = eq→path n k same in
          rw (same, rows_for-tasks_of k ns, e) (or_same (rows_if (outcome k)) (contains k ns))
      | inr other ↦ rw (other) (rows_for-tasks_of k ns)
    ]

    names-tasks_of : (ns : List Text) → names (tasks_of outcome ns) ≡ ns
    names-tasks_of [] = refl
    names-tasks_of (n ∷ ns) = ap (λ r. n ∷ r) (names-tasks_of ns)

    -- In whatever order the extractors end, each table has the rows of its extractor if that one
    -- succeeds and none if not, whatever becomes of the others, and every failure and every panic
    -- leaves its message, as often as if the extractors had run one after the other.
    pub ExtractAll_lem :
        (s : LedgerData R)
        → ExtractAll outcome s
        → ((k : Text)
            → get k s.tables ≡ (if contains k extractors then rows_if (outcome k) else none))
          × ((e : Text) → count e s.errs ≡ count e (messages (tasks_of outcome extractors)))
    unfolding ExtractAll
    ExtractAll_lem s run = (
      λ k.
          Runs-rows (tasks_of outcome extractors) no_data s run
            (subst IsDistinct (sym (names-tasks_of extractors)) extractors-IsDistinct) k
          ∙ or-nothing (rows_for k (tasks_of outcome extractors))
          ∙ rows_for-tasks_of k extractors,
      λ e. omega (arith, Runs-messages (tasks_of outcome extractors) no_data s run e),
    )

  -- The run in which the extractors end in the order in which they are started.
  abbrev pub in_turn : List (Task R) → LedgerData R → LedgerData R
  in_turn [] s = s
  in_turn (t ∷ ts) s = in_turn ts (finish t s)

  pub in_turn-Runs : (ts : List (Task R)) (s : LedgerData R) → Runs ts s (in_turn ts s)
  in_turn-Runs [] s = all_done
  in_turn-Runs (t ∷ ts) s = one_ends t first (in_turn-Runs ts (finish t s))
