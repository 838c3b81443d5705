-- ===== src/CallGraph/Credentials.antt =====
-- call_graph.go: `extractAuthCredentials`.
use stellar_extract.Prelude.{
  ◌≡◌, refl, Option, none, some, List, [], ◌∷◌, ◌++◌, map, Text, append_assoc, append-nil, sym,
}
use stellar_extract.Go.Strings.{codes, decimal_int}
use stellar_extract.Go.Ints.{ℤ}
use stellar_extract.Xdr.{ok, err, Sdk}
use stellar_extract.Xdr.Values.{ScAddress}
use stellar_extract.CallGraph.Auth.{Invocation}

-- xdr.SorobanCredentials; an address is missing where the union's getter reports none.
pub data Credentials : Type 0 where
  source_account : Credentials
  address address_v2 address_with_delegates : Option ScAddress → Credentials
  credentials_other : ℤ → Credentials

-- xdr.SorobanAuthorizationEntry
pub record AuthorizationEntry : Type 0 where
  pub credentials : Credentials
  pub root_invocation : Invocation

module _ (sdk : Sdk) where
  unfoldable pub address_or_empty : Option ScAddress → Text
  address_or_empty none = []
  address_or_empty (some a) = elim (sdk.address_string a) [ ok s ↦ s | err e ↦ [] ]

  -- one round of the loop: what is appended to `types` and to `addrs`
  unfoldable pub describe : Credentials → Text × Text
  unfolding address_or_empty
  describe source_account = (codes "SOURCE_ACCOUNT", [])
  describe (address a) = (codes "ADDRESS", address_or_empty a)
  describe (address_v2 a) = (codes "ADDRESS_V2", address_or_empty a)
  describe (address_with_delegates a) = (codes "ADDRESS_WITH_DELEGATES", address_or_empty a)
  describe (credentials_other n) = (codes "UNKNOWN_" ++ decimal_int n, [])

  credentials_loop : List AuthorizationEntry → List Text → List Text → List Text × List Text
  unfolding describe
  credentials_loop [] types addrs = (types, addrs)
  credentials_loop (entry ∷ entries) types addrs =
      let (t, a) = describe entry.credentials in
      credentials_loop entries (types ++ t ∷ []) (addrs ++ a ∷ [])

  -- nil slices are `none`
  unfoldable pub extract_auth_credentials :
      List AuthorizationEntry → Option (List Text) × Option (List Text)
  unfolding credentials_loop
  extract_auth_credentials [] = (none, none)
  extract_auth_credentials (entry ∷ entries) =
      let (types, addrs) = credentials_loop (entry ∷ entries) [] [] in (some types, some addrs)

  unfoldable pub kind_of : AuthorizationEntry → Text
  kind_of entry = (describe entry.credentials).0

  unfoldable pub authorizer_of : AuthorizationEntry → Text
  authorizer_of entry = (describe entry.credentials).1

  credentials_loop-map :
      (entries : List AuthorizationEntry) (types addrs : List Text)
      → credentials_loop entries types addrs
        ≡ (types ++ map kind_of entries, addrs ++ map authorizer_of entries)
  unfolding credentials_loop kind_of authorizer_of
  credentials_loop-map [] types addrs = λ i. (sym (append-nil types) i, sym (append-nil addrs) i)
  credentials_loop-map (entry ∷ entries) types addrs =
      simp (credentials_loop-map entries, append_assoc)

  -- No entries give no slices at all; otherwise position i of both slices describes entry i.
  pub extract_auth_credentials_lem :
      (entry : AuthorizationEntry) (entries : List AuthorizationEntry)
      → (extract_auth_credentials [] ≡ (none, none))
        × (extract_auth_credentials (entry ∷ entries)
            ≡ (some (map kind_of (entry ∷ entries)), some (map authorizer_of (entry ∷ entries))))
  unfolding extract_auth_credentials
  extract_auth_credentials_lem entry entries =
      (refl, rw (credentials_loop-map (entry ∷ entries) [] []))
