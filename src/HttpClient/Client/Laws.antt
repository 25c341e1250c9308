-- ===== src/HttpClient/Client/Laws.antt =====
-- Laws of utils/http/client/.
use wing.Base.{
  if◌then◌else◌, Bool-cases, Dict, lookup, insert, lookup-insert_self, Error, Result, and_then,
  and_then-eq-ok, ok-injective, ok, err, panic, String, ◌≡◌, refl, sym, ap, ◌∙◌, subst, ◌⊎◌, inl,
  inr, true, Option, none, some, List, [], ◌==◌,
}
use wing.HttpClient.Options.{
  Query, get_receiver_options, Options, Setter, new_options, apply_options,
}
use wing.HttpClient.Requester.{
  Request, Response, Executed, Requester, Network, header_content_type, header_user_agent, prepare,
  perform, encoded, pre_request_hook, on_before_request, full_url, set_headers,
}
use wing.HttpClient.Client.{
  get_receiver_options, Client, Answer, is_expected, check_status, after_unmarshal, receive,
  after_do, with_options, request,
}

-- The receiver, if there is one, holds what the body is unmarshalled to.
abbrev pub Unmarshalled : {B V : Type 0} → Client B V → Option V → Response → Option V → Type 0
Unmarshalled client none r left = left ≡ none
Unmarshalled {B} {V} client (some v) r left =
    (v' : V) × (left ≡ some v') × (client.requester.encoding.unmarshal r.body v ≡ (none, v'))

on_before_request-content_type :
    {B V : Type 0} (r : Requester B V) (draft : Request)
    → lookup header_content_type (on_before_request r draft).headers ≡ some r.encoding.content_type
unfolding on_before_request
on_before_request-content_type r draft =
    lookup-insert_self header_content_type r.encoding.content_type (
      if r.user_agent == ""
      then draft.headers
      else insert header_user_agent r.user_agent draft.headers)

module _ {S B V : Type 0} where
  -- What an answer without an error rests on.
  abbrev pub Success : Client B V → Options S B V → Answer V → Type 0
  Success client o a =
      (r : Response) × (a.response ≡ some r)
      × ((is_expected o.expected_status_code r.status_code ≡ true) ⊎ (o.default_error ≡ none))
      × Unmarshalled client o.receiver r a.receiver

  check_status-Accepted :
      (o : Options S B V) (r : Response) (v : Option V)
      → (check_status o r v).error ≡ none
      → (is_expected o.expected_status_code r.status_code ≡ true) ⊎ (o.default_error ≡ none)
  unfolding check_status
  check_status-Accepted o r v h =
      elim (Bool-cases (is_expected o.expected_status_code r.status_code)) [
        | inl yes' ↦ inl yes'
        | inr no' ↦ inr (rw no' at h)
      ]

  after_unmarshal-Success :
      (client : Client B V) (o : Options S B V) (r : Response) (v : V) (u : Option Error × V)
      → o.receiver ≡ some v
      → client.requester.encoding.unmarshal r.body v ≡ u
      → (after_unmarshal o r u).error ≡ none
      → Success client o (after_unmarshal o r u)
  unfolding after_unmarshal check_status
  after_unmarshal-Success client o r v (some e, v') given u h = cc
  after_unmarshal-Success client o r v (none, v') given u h =
      (r, refl, check_status-Accepted o r (some v') h, rw given (v', refl, u))

  receive-Success :
      (client : Client B V) (o : Options S B V) (v : Option V) (r : Response)
      → o.receiver ≡ v
      → (receive client o v r).error ≡ none
      → Success client o (receive client o v r)
  unfolding receive check_status
  receive-Success client o none r given h =
      (r, refl, check_status-Accepted o r none h, rw given refl)
  receive-Success client o (some v) r given h = after_unmarshal-Success client o r v _ given refl h

  after_do-Success :
      (client : Client B V) (o : Options S B V) (answered : Executed) {a : Answer V}
      → after_do client o answered ≡ ok a
      → a.error ≡ none
      → Success client o a
  unfolding after_do get_receiver_options
  after_do-Success client o (response, some e) h clean = cc
  after_do-Success client o (none, none) h clean = cc
  after_do-Success client o (some r, none) h clean =
      let same = ok-injective h in
      subst (Success client o) same
        (receive-Success client o o.receiver r refl (rw (← same) at clean))

  -- A request without an error has a response. Its status code is the expected one or below 400,
  -- unless the options name no error for other codes, and a receiver that the options name holds
  -- what the response's body is unmarshalled to.
  pub request-Success :
      (net : Network S) (client : Client B V) (method resource_format : String)
      (options : List (Setter S B V)) (o : Options S B V) (a : Answer V)
      → apply_options options new_options ≡ ok o
      → request net client method resource_format options ≡ ok a
      → a.error ≡ none
      → Success client o a
  unfolding request with_options
  request-Success net client method resource_format options o a set h clean =
      let (answered, _, done) =
        and_then-eq-ok
          (perform net.execute client.requester.timeout (
            prepare net client.requester o.signer method client.endpoint o.body o.headers
              resource_format o.query))
          (after_do client o) (rw (set, request, with_options) at h) in
      after_do-Success client o answered done clean

  pub receive-response :
      (client : Client B V) (o : Options S B V) (v : Option V) (r : Response)
      → (receive client o v r).response ≡ some r
  unfolding receive after_unmarshal check_status
  receive-response client o none r = refl
  receive-response client o (some v) r = unmarshalled _
    where
      unmarshalled : (u : Option Error × V) → (after_unmarshal o r u).response ≡ some r
      unmarshalled (none, v') = refl
      unmarshalled (some e, v') = refl

  after_do-Answered :
      (client : Client B V) (o : Options S B V) (answered : Executed) {a : Answer V}
      → after_do client o answered ≡ ok a
      → a.error ≡ none
      → (r : Response) × (answered ≡ (some r, none)) × (a.response ≡ some r)
  unfolding after_do get_receiver_options
  after_do-Answered client o (response, some e) h clean = cc
  after_do-Answered client o (none, none) h clean = cc
  after_do-Answered client o (some r, none) h clean = (
    r,
    refl,
    ap (λ (x : Answer V). x.response) (sym (ok-injective h))
        ∙ receive-response client o o.receiver r,
  )

  -- The request that is prepared, and the response that it is answered with.
  abbrev pub Answered : Network S → Client B V → Options S B V → Result Request → Answer V → Type 0
  Answered net client o prepared a =
      (sent : Request) × (r : Response) × (prepared ≡ ok sent)
      × (net.execute client.requester.timeout sent ≡ (some r, none))
      × (a.response ≡ some r)

  perform-Answered :
      (net : Network S) (client : Client B V) (o : Options S B V) (prepared : Result Request)
      {a : Answer V}
      → and_then (perform net.execute client.requester.timeout prepared) (after_do client o) ≡ ok a
      → a.error ≡ none
      → Answered net client o prepared a
  unfolding perform after_do
  perform-Answered net client o (ok sent) h clean =
      let (r, answered, response) =
        after_do-Answered client o (net.execute client.requester.timeout sent) h clean in
      (sent, r, refl, answered, response)
  perform-Answered net client o (err e) h clean = cc
  perform-Answered net client o panic h clean = cc

  -- The response of a request without an error is what the network answers to what is prepared.
  pub request-Answered :
      (net : Network S) (client : Client B V) (method resource_format : String)
      (options : List (Setter S B V)) (o : Options S B V) (a : Answer V)
      → apply_options options new_options ≡ ok o
      → request net client method resource_format options ≡ ok a
      → a.error ≡ none
      → Answered net client o
          (prepare net client.requester o.signer method client.endpoint o.body o.headers
            resource_format o.query)
          a
  unfolding request with_options
  request-Answered net client method resource_format options o a set h clean =
      perform-Answered net client o _ (rw (set, request, with_options) at h) clean

  -- What a signer signs is the request with its final headers, of which the content type is the
  -- encoding's, whatever headers are asked for, and with the body as it is encoded.
  pub prepare_signs_last :
      (net : Network S) (r : Requester B V) (signer : Option S) (method endpoint : String)
      (body : Option B) (headers : Dict String) (resource_format : String) (query : Query)
      (sent : Request)
      → prepare net r signer method endpoint body headers resource_format query ≡ ok sent
      → (draft : Request) × (sent ≡ pre_request_hook net.sign signer draft)
        × (lookup header_content_type draft.headers ≡ some r.encoding.content_type)
        × (encoded r.encoding body ≡ ok draft.body)
  unfolding prepare on_before_request
  prepare_signs_last net r signer method endpoint body headers resource_format query sent h =
      let (text, e, done) = and_then-eq-ok (encoded r.encoding body) _ h in
      let draft : Request = record {
        method = method;
        url = full_url net.encode endpoint resource_format query;
        headers = set_headers net.canonical_header_key headers [];
        body = text;
      } in
      (
        on_before_request r draft,
        sym (ok-injective done),
        on_before_request-content_type r draft,
        e,
      )
