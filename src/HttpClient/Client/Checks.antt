-- ===== src/HttpClient/Client/Checks.antt =====
-- When a request of utils/http/client/ that was answered ends in an error.
use wing.Base.{ℤ, ◌<ℤ◌, pos, Dict, Error, String, ◌≡◌, ◌⊎◌, none, some}
use wing.HttpClient.Options.{
  Query, Options, Setter, with_signer, with_query, with_receiver, with_request_body, with_headers,
  with_expected_status_code,
}
use wing.HttpClient.Requester.{Response}
use wing.HttpClient.Client.{Client}

module _ {S B V : Type 0} where
  -- The options that the package offers.
  pub data IsOffered : Setter S B V → Type 0 where
    offers_signer : (signer : S) → IsOffered (with_signer signer)
    offers_query : (query : Query) → IsOffered (with_query query)
    offers_receiver : (v : V) (e : Error) → IsOffered (with_receiver v e)
    offers_body : (body : B) → IsOffered (with_request_body body)
    offers_headers : (headers : Dict String) → IsOffered (with_headers headers)
    offers_status_code : (code : ℤ) → IsOffered (with_expected_status_code code)

  -- A receiver and an error for other codes are set together.
  abbrev Paired : Options S B V → Type 0
  Paired o =
      ((o.receiver ≡ none) × (o.default_error ≡ none))
      ⊎ ((v : V) × (e : Error) × (o.receiver ≡ some v) × (o.default_error ≡ some e))

  -- No receiver, or one that the body was unmarshalled into and a status code that is the expected
  -- one or below 400.
  abbrev pub Accepts : Client B V → Options S B V → Response → Type 0
  Accepts client o r =
      (o.receiver ≡ none)
      ⊎ ((v : V) × (v' : V) × (o.receiver ≡ some v)
          × (client.requester.encoding.unmarshal r.body v ≡ (none, v'))
          × ((o.expected_status_code ≡ r.status_code) ⊎ (r.status_code <ℤ pos 400)))
