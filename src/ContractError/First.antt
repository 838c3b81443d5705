-- ===== src/ContractError/First.antt =====
-- The error reported is the first one in the events.
use stellar_extract.Prelude.{
  arith, ◌≡◌, refl, Option, none, some, List, [], ◌∷◌, ◌++◌, Option-cases, inl, inr, ◌∙◌,
}
use stellar_extract.Xdr.{ok}
use stellar_extract.Xdr.Values.{ScVal, ScError}
use stellar_extract.CallGraph.Names.{EventBody, DiagnosticEvent}
use stellar_extract.ContractError.{
  get_error, Facts, no_facts, sc_error_facts, in_topics, in_payload, in_events,
  contract_error_facts,
}

-- All values of a sequence of events, in the order in which a contract emits them: the topics of
-- an event, and its data behind them.
abbrev values_of : Option EventBody → List ScVal
values_of none = []
values_of (some body) = body.topics ++ body.payload ∷ []

abbrev pub all_values : List DiagnosticEvent → List ScVal
all_values [] = []
all_values (event ∷ events) = values_of event.event.body ++ all_values events

abbrev pub first_error : List ScVal → Option ScError
first_error [] = none
first_error (val ∷ vals) = elim (get_error val) [ some e ↦ some e | none ↦ first_error vals ]

abbrev pub facts_or_none : Option ScError → Facts
facts_or_none none = no_facts
facts_or_none (some e) = sc_error_facts e

-- What the code reports is the facts of the first error, in front of what it reports otherwise.
abbrev facts_or : Option ScError → Facts → Facts
facts_or none rest = rest
facts_or (some e) rest = sc_error_facts e

facts_or-none : (o : Option ScError) → facts_or o no_facts ≡ facts_or_none o
facts_or-none none = refl
facts_or-none (some e) = refl

in_topics-first :
    (topics : List ScVal) (rest : Facts)
    → in_topics topics rest ≡ facts_or (first_error topics) rest
unfolding in_topics
in_topics-first [] rest = refl
in_topics-first (p ∷ ps) rest = ground (arith, in_topics-first ps rest)

first_error-append :
    (xs ys : List ScVal) (rest : Facts)
    → facts_or (first_error (xs ++ ys)) rest
      ≡ facts_or (first_error xs) (facts_or (first_error ys) rest)
first_error-append [] ys rest = refl
first_error-append (p ∷ ps) ys rest = ground (arith, first_error-append ps ys rest)

in_payload-first :
    (v : ScVal) (rest : Facts) → in_payload v rest ≡ facts_or (first_error (v ∷ [])) rest
unfolding in_payload
in_payload-first v rest = ground arith

in_events-first :
    (events : List DiagnosticEvent)
    → in_events events ≡ facts_or (first_error (all_values events)) no_facts
unfolding in_events
in_events-first [] = refl
in_events-first (event ∷ events) = elim (Option-cases event.event.body) [
  | inl absent ↦ rw (absent, in_events) (in_events-first events)
  | inr (body, found) ↦
      rw
        (
          found,
          in_events,
          in_topics-first,
          in_payload-first,
          in_events-first events,
          first_error-append (body.topics ++ body.payload ∷ []) (all_values events) no_facts,
          first_error-append body.topics (body.payload ∷ []),
        )
        refl
]

-- The facts reported are those of the first value that is an error, in the order of the events and,
-- in an event, topics before data; without one, or without a body, nothing is reported as present.
pub contract_error_facts-first :
    (events : List DiagnosticEvent)
    → contract_error_facts (ok events) ≡ facts_or_none (first_error (all_values events))
unfolding contract_error_facts
contract_error_facts-first events =
    in_events-first events ∙ facts_or-none (first_error (all_values events))
