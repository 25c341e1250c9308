-- ===== src/HttpClient/Client.antt =====
-- utils/http/client/client.go.
pub mod Laws
pub mod Checks
use wing.Base.{
  if◌then◌else◌, ℤ, ltb_ℤ, eqb_ℤ, pos, Error, Result, and_then, deref, ok, err, panic, String, Bool,
  ◌||◌, Option, none, some, List,
}
use wing.HttpClient.Options.{Options, Setter, new_options, get_receiver_options, apply_options}
use wing.HttpClient.Requester.{Response, Executed, Requester, Network, prepare, perform}

pub record Client (B V : Type 0) : Type 0 where
  pub requester : Requester B V
  pub endpoint : String

-- The two results of `Request`, and the receiver as it leaves it.
pub record Answer (V : Type 0) : Type 0 where
  pub response : Option Response
  pub error : Option Error
  pub receiver : Option V

-- http.StatusBadRequest.
abbrev pub status_bad_request : ℤ
status_bad_request = pos 400

unfoldable pub new_client : {B V : Type 0} → Requester B V → String → Client B V
new_client requester endpoint = record { requester = requester; endpoint = endpoint }

unfoldable pub is_expected : ℤ → ℤ → Bool
is_expected expected status_code =
    eqb_ℤ expected status_code || ltb_ℤ status_code status_bad_request

module _ {S B V : Type 0} where
  -- The test of the status code, which comes last.
  unfoldable pub check_status : Options S B V → Response → Option V → Answer V
  unfolding is_expected
  check_status o response receiver = record {
    response = some response;
    error =
        if is_expected o.expected_status_code response.status_code then none else o.default_error;
    receiver = receiver;
  }

  -- The outcome of `Unmarshal`: its error ends the request.
  unfoldable pub after_unmarshal : Options S B V → Response → Option Error × V → Answer V
  unfolding check_status
  after_unmarshal o response (some e, v) = record {
    response = some response;
    error = some e;
    receiver = some v;
  }
  after_unmarshal o response (none, v) = check_status o response (some v)

  unfoldable pub receive : Client B V → Options S B V → Option V → Response → Answer V
  unfolding after_unmarshal check_status
  receive client o none response = check_status o response none
  receive client o (some v) response =
      after_unmarshal o response (client.requester.encoding.unmarshal response.body v)

  -- What resty has answered.
  unfoldable pub after_do : Client B V → Options S B V → Executed → Result (Answer V)
  unfolding receive get_receiver_options
  after_do client o (response, some e) =
      ok (record { response = response; error = some e; receiver = o.receiver })
  after_do client o (response, none) =
      and_then (deref response) λ r. ok (receive client o (get_receiver_options o).0 r)

  unfoldable pub with_options :
      Network S → Client B V → String → String → Options S B V → Result (Answer V)
  unfolding prepare perform after_do
  with_options net client method resource_format o =
      and_then
        (perform net.execute client.requester.timeout (
          prepare net client.requester o.signer method client.endpoint o.body o.headers
            resource_format o.query))
        (after_do client o)

  -- An option that fails is the error of the request.
  unfoldable pub request :
      Network S → Client B V → String → String → List (Setter S B V) → Result (Answer V)
  unfolding apply_options new_options with_options
  request net client method resource_format options = elim (apply_options options new_options) [
    | ok o ↦ with_options net client method resource_format o
    | err e ↦ ok (record { response = none; error = some e; receiver = none })
    | panic ↦ panic
  ]
