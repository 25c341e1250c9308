-- ===== src/Plugins/Rabbitmq/Requests/Answers.antt =====
-- The answers that plugins/scaler_rabbitmq/settings.go reads over HTTP.
use wing.Base.{
  if◌then◌else◌, Bool-cases, Option-cases, some-injective, ℤ, ◌<ℤ◌, pos, ◌<>◌, and_then-eq-ok,
  ok-injective, err-ne-ok, ok, Duration, Float64, String, ◌≡◌, refl, sym, ◌∙◌, subst, ◌≢◌, inl, inr,
  true, none, some, [], ◌∷◌, arith,
}
use wing.HttpClient.Options.{
  Query, Options, new_options, apply_options, with_query, with_receiver, with_expected_status_code,
}
use wing.HttpClient.Requester.{
  Network, Encoding, Request, Response, new_requester, json_encoding, prepare, on_before_request,
  encoded, full_url, set_headers, pre_request_hook,
}
use wing.HttpClient.Client.{Client, Answer, is_expected, new_client}
use wing.HttpClient.Client.Laws.{Success, Unmarshalled, request-Success, request-Answered}
use wing.Plugins.Rabbitmq.Queues.{QueueInfo}
use wing.Plugins.Rabbitmq.Settings.{Settings}
use wing.Plugins.Rabbitmq.Requests.{
  UrlLibrary, Received, one_info, many_infos, zero_info, resource_format, request_endpoint,
  request_options, regex_query, info_of, messages_by_type, read_answer, request_via_http,
}

-- A success where a receiver, an error for other codes, and the expected code 200 are set.
Success-Received :
    {S B V : Type 0} (client : Client B V) (o : Options S B V) (a : Answer V) (v : V) (r : Response)
    → Success client o a
    → a.response ≡ some r
    → o.receiver ≡ some v
    → o.default_error ≢ none
    → o.expected_status_code ≡ pos 200
    → (v' : V) × (r.status_code <ℤ pos 400)
      × (client.requester.encoding.unmarshal r.body v ≡ (none, v'))
      × (a.receiver ≡ some v')
unfolding is_expected
Success-Received client o a v r (r', held, inl status, un) response receives checked e =
    let same : r' ≡ r = some-injective (sym held ∙ response) in
    let (v', left, read) = subst (λ x. Unmarshalled client x r' a.receiver) receives un in
    (
      v',
      rw same at (below r'.status_code (rw e at status)),
      subst (λ (x : Response). client.requester.encoding.unmarshal x.body v ≡ (none, v')) same read,
      left,
    )
  where
    below : (code : ℤ) → is_expected (pos 200) code ≡ true → code <ℤ pos 400
    below code h = ground arith
Success-Received client o a v r (r', _, inr silent, un) response receives checked e =
    absurd (checked silent)

module _ (F : Type 0) ⦃f : Float64 F⦄ where
  -- What the answer is unmarshalled into.
  abbrev pub receiver_of : Settings F → Received F
  receiver_of s = if s.use_regex then many_infos [] else one_info (zero_info F)

  abbrev pub query_of : Settings F → Query
  query_of s = if s.use_regex then regex_query s.queue_name else []

  request_options-Set :
      {S B : Type 0} (s : Settings F)
      → (o : Options S B (Received F)) × (apply_options (request_options F s) new_options ≡ ok o)
        × (o.receiver ≡ some (receiver_of s))
        × (o.default_error ≢ none)
        × (o.expected_status_code ≡ pos 200)
        × (o.signer ≡ none)
        × (o.body ≡ none)
        × (o.headers ≡ [])
        × (o.query ≡ query_of s)
  unfolding request_options apply_options new_options with_query with_receiver
      with_expected_status_code
  request_options-Set s = elim (Bool-cases s.use_regex) [
    | inl many ↦ rw many (_, refl, refl, (λ h. cc), refl, refl, refl, refl, refl)
    | inr one ↦ rw one (_, refl, refl, (λ h. cc), refl, refl, refl, refl, refl)
  ]

  -- The request for the queue, or for the queues whose names match.
  abbrev pub queue_request : {S : Type 0} → Network S → Settings F → String → String → Request
  queue_request net s endpoint path = record {
    method = "GET";
    url = endpoint <> "/" <> resource_format F s path <> "?" <> net.encode (query_of s);
    headers = ("Content-Type", "application/json") ∷ [];
    body = none;
  }

  prepare-queue_request :
      {S B : Type 0} (net : Network S) (encoding : Encoding B (Received F)) (s : Settings F)
      (timeout : Duration) (endpoint path : String)
      → prepare net
          (new_requester (json_encoding encoding.marshal encoding.unmarshal) timeout)
          none
          "GET"
          endpoint
          none
          []
          (resource_format F s path)
          (query_of s)
        ≡ ok (queue_request net s endpoint path)
  unfolding prepare new_requester json_encoding on_before_request encoded full_url set_headers
      pre_request_hook
  prepare-queue_request net encoding s timeout endpoint path = refl

  read_answer-inversion :
      (s : Settings F) (a : Answer (Received F)) (answer : ℤ × F)
      → read_answer F s a ≡ ok answer
      → (a.error ≡ none)
        × ((info : QueueInfo F) × (info_of F s a.receiver ≡ ok info)
            × (answer ≡ (messages_by_type F s.message_type info, info.rate)))
  unfolding read_answer
  read_answer-inversion s a answer h = elim (Option-cases a.error) [
    | inl clean ↦
        let (info, e, done) =
          and_then-eq-ok (info_of F s a.receiver) _ (rw (clean, read_answer) at h) in
        (clean, (info, e, sym (ok-injective done)))
    | inr (e, failed) ↦ absurd (err-ne-ok (rw (failed, read_answer) at h))
  ]

  -- A count and a rate that come over HTTP are read from what the network answers to a GET request at
  -- the host of the settings without its path, for the queue or with the query for the queues that
  -- match: it answers without an error, the status code is below 400, the body is unmarshalled
  -- without an error, and the queue in it, or the one that the queues in it are composed to, has that
  -- count by the message type and that rate.
  pub request_via_http_success :
      {S B : Type 0} (urls : UrlLibrary) (net : Network S) (encoding : Encoding B (Received F))
      (s : Settings F) (timeout : Duration) (answer : ℤ × F)
      → request_via_http F urls net encoding s timeout ≡ ok answer
      → (url : urls.Url) × (r : Response) × (received : Received F) × (info : QueueInfo F)
        × (urls.parse s.host ≡ ok url)
        × (net.execute timeout (queue_request net s (urls.print_without_path url) (urls.path url))
            ≡ (some r, none))
        × (r.status_code <ℤ pos 400)
        × (encoding.unmarshal r.body (receiver_of s) ≡ (none, received))
        × (info_of F s (some received) ≡ ok info)
        × (answer ≡ (messages_by_type F s.message_type info, info.rate))
  unfolding request_via_http request_endpoint json_encoding new_client new_requester
  request_via_http_success {S} {B} urls net encoding s timeout answer h =
      let (url, parsed, asked) = and_then-eq-ok (urls.parse s.host) _ h in
      let (a, sent, done) = and_then-eq-ok _ (read_answer F s) asked in
      let (clean, (info, named, same)) = read_answer-inversion s a answer done in
      let (o, set, receives, checked, code, unsigned, bare, plain, query) =
        request_options-Set {S = S} {B = B} s in
      let resource = resource_format F s (urls.path url) in
      let client =
        new_client (new_requester (json_encoding encoding.marshal encoding.unmarshal) timeout)
          (urls.print_without_path url) in
      let (request', r, prepared, executed, response) =
        request-Answered net client "GET" resource (request_options F s) o a set sent clean in
      let success =
        request-Success net client "GET" resource (request_options F s) o a set sent clean in
      let (received, status, read, held) =
        Success-Received client o a (receiver_of s) r success response receives checked code in
      let asked' : request' ≡ queue_request net s (urls.print_without_path url) (urls.path url) =
        ok-injective (
          sym (rw (unsigned, bare, plain, query) at prepared)
          ∙ prepare-queue_request net encoding s timeout (urls.print_without_path url)
              (urls.path url)) in
      (url, r, received, info, parsed, rw asked' at executed, status, read, rw held at named, same)
