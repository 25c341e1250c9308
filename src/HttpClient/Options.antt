-- ===== src/HttpClient/Options.antt =====
-- utils/http/client/options.go. `S` is the type of signers, `B` that of request bodies and `V` that of
-- receivers, which the source holds as interfaces.
use wing.Base.{
  ℤ, negsuc, Dict, lookup, insert, Error, Result, and_then, ok, String, Option, none, some, List,
  [], ◌∷◌, ◌++◌,
}

-- url.Values.
abbrev pub Query : Type 0
Query = Dict (List String)

-- `Values.Add`.
unfoldable pub add_value : String → String → Query → Query
unfolding lookup insert
add_value key value query =
    insert key (elim (lookup key query) [ none ↦ value ∷ [] | some vs ↦ vs ++ (value ∷ []) ]) query

pub record Options (S B V : Type 0) : Type 0 where
  pub signer : Option S
  pub query : Query
  pub body : Option B
  pub headers : Dict String
  pub receiver : Option V
  pub expected_status_code : ℤ
  pub default_error : Option Error

module _ {S B V : Type 0} where
  unfoldable pub new_options : Options S B V
  new_options = record {
    signer = none;
    query = [];
    body = none;
    headers = [];
    receiver = none;
    expected_status_code = negsuc 0;
    default_error = none;
  }

  unfoldable pub get_receiver_options : Options S B V → Option V × Option Error
  get_receiver_options o = (o.receiver, o.default_error)

-- The source's type Option, a function that changes the options or fails.
abbrev pub Setter : Type 0 → Type 0 → Type 0 → Type 0
Setter S B V = Options S B V → Result (Options S B V)

module _ {S B V : Type 0} where
  unfoldable pub with_signer : S → Setter S B V
  with_signer signer o = ok (record o { signer = some signer })

  unfoldable pub with_query : Query → Setter S B V
  with_query query o = ok (record o { query = query })

  unfoldable pub with_receiver : V → Error → Setter S B V
  with_receiver receiver default o =
      ok (record o { receiver = some receiver; default_error = some default })

  unfoldable pub with_request_body : B → Setter S B V
  with_request_body body o = ok (record o { body = some body })

  unfoldable pub with_headers : Dict String → Setter S B V
  with_headers headers o = ok (record o { headers = headers })

  unfoldable pub with_expected_status_code : ℤ → Setter S B V
  with_expected_status_code status_code o = ok (record o { expected_status_code = status_code })

  -- The loop of `Request` over its options.
  unfoldable pub apply_options : List (Setter S B V) → Options S B V → Result (Options S B V)
  apply_options [] o = ok o
  apply_options (option ∷ options) o = and_then (option o) (apply_options options)
