-- ===== src/Transactions/Invocation.antt =====
-- transactions.go: `extractContractInvocationDetails`.
use stellar_extract.Prelude.{Option, none, some, List, [], ◌∷◌, Text}
use stellar_extract.CallGraph.Extract.{
  HostFunction, invoke_contract, other_host_function, InvokeHostFunctionOp,
}
use stellar_extract.Go.Strings.{codes, base64_encode}
use stellar_extract.ScVal.Json.{Json, str, obj, Items, nil, cons, end, field}
use stellar_extract.Transactions.{unless_blank}
use stellar_extract.Xdr.{Result, ok, err, Sdk}
use stellar_extract.Xdr.Values.{ScVal, type_of}

-- an InvokeHostFunctionOp, with the name of its host function's type, and with the arguments where
-- it invokes a contract
pub record InvokeOp : Type 0 where
  pub op : InvokeHostFunctionOp
  pub function_type : Text
  pub args : List ScVal

pub record InvocationDetails : Type 0 where
  pub contract_id : Option Text
  pub function_name : Option Text
  pub arguments_json : Option Text

abbrev pub no_details : InvocationDetails
no_details = record { contract_id = none; function_name = none; arguments_json = none }

-- `json.Marshal` and `ScVal.MarshalBinary`
module _ (sdk : Sdk) (marshal : Items → Result Text) (marshal_binary : ScVal → Result Text) where
  abbrev contract_id_of : Result Text → Option Text
  contract_id_of (err e) = none
  contract_id_of (ok id) = unless_blank id none

  abbrev argument_of : Text → Result Text → Json
  argument_of arg_type (err e) =
      obj (field (codes "error") (str e) (field (codes "type") (str arg_type) end))
  argument_of arg_type (ok bytes) = obj (
      field (codes "type") (str arg_type) (field (codes "xdr_b64") (str (base64_encode bytes)) end))

  -- the loop over the arguments
  arguments_of : List ScVal → Items
  unfolding type_of base64_encode
  arguments_of [] = nil
  arguments_of (arg ∷ args) =
      cons (argument_of (sdk.type_string (type_of arg)) (marshal_binary arg)) (arguments_of args)

  -- no arguments are no text; where they cannot be marshalled, the error is logged by the caller
  arguments_text : Items → Option Text
  arguments_text nil = none
  arguments_text (cons arg args) = elim (marshal (cons arg args)) [
    | err e ↦ none
    | ok text ↦ some text
  ]

  details_of : HostFunction → List ScVal → InvocationDetails
  unfolding arguments_of arguments_text
  details_of other_host_function args = no_details
  details_of (invoke_contract none) args = no_details
  details_of (invoke_contract (some call)) args = record {
    contract_id = contract_id_of (sdk.address_string call.contract_address);
    function_name = unless_blank call.function_name none;
    arguments_json = arguments_text (arguments_of args);
  }

  unfoldable pub extract_contract_invocation_details : InvokeOp → InvocationDetails
  unfolding details_of
  extract_contract_invocation_details invocation =
      details_of invocation.op.host_function invocation.args
