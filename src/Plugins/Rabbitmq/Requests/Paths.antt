-- ===== src/Plugins/Rabbitmq/Requests/Paths.antt =====
-- The paths that plugins/scaler_rabbitmq/settings.go asks for over HTTP.
use mathlib.Core.Path.{fun_ext}
use text.Mathlib.TextLemmas.{append_cancel_left, length-append, append_assoc}
use Prim.Native.String.{count}
use wing.Base.{
  Bool-cases, ◌<>◌, and_then, Duration, Float64, String, ◌≡◌, refl, sym, ap, ◌∙◌, ◌≢◌, inl, inr,
  true, false, some, arith, ◌==◌, eq_iff,
}
use wing.HttpClient.Requester.{Network, Encoding, new_requester, json_encoding}
use wing.HttpClient.Client.{new_client, request}
use wing.Plugins.Rabbitmq.Settings.{Settings}
use wing.Plugins.Rabbitmq.Requests.{
  UrlLibrary, Received, vhost_path, resource_format, request_endpoint, request_options, info_of,
  read_answer, request_via_http,
}

-- A virtual host that is not the default one.
abbrev pub IsNamed : String → Type 0
IsNamed v = (v ≢ "") × (v ≢ "/")

vhost_path_named : (path v : String) → IsNamed v → vhost_path path (some v) ≡ "/" <> v
unfolding vhost_path
vhost_path_named path v (full, other) =
    let one : ("/" <> v == "/") ≡ true → ⊥ =
      λ h. full (append_cancel_left "/" v "" ((eq_iff ("/" <> v) "/").0 h)) in
    let two : ("/" <> v == "//") ≡ true → ⊥ =
      λ h. other (append_cancel_left "/" v "/" ((eq_iff ("/" <> v) "//").0 h)) in
    let none' : ("/" <> v == "") ≡ true → ⊥ =
      λ h. absurd (omega (arith, length-append "/" v, ap count ((eq_iff ("/" <> v) "").0 h))) in
    elim (Bool-cases ("/" <> v == "")) [
      | inl e ↦ absurd (none' e)
      | inr e ↦ elim (Bool-cases ("/" <> v == "/")) [
        | inl e' ↦ absurd (one e')
        | inr e' ↦ elim (Bool-cases ("/" <> v == "//")) [
          | inl e'' ↦ absurd (two e'')
          | inr e'' ↦ rw (e, e', e'') refl
        ]
      ]
    ]

slashed : (v w q : String) → ("/" <> v) <> (w <> q) ≡ ("/" <> (v <> w)) <> q
slashed v w q =
    append_assoc "/" v (w <> q)
    ∙ (ap (λ (r : String). "/" <> r) (sym (append_assoc v w q)) ∙ sym (append_assoc "/" (v <> w) q))

module _ (F : Type 0) ⦃f : Float64 F⦄ where
  named_resource :
      (s : Settings F) (path v : String)
      → s.use_regex ≡ false
      → IsNamed v
      → s.vhost_name ≡ some v
      → resource_format F s path ≡ "api/queues" <> ("/" <> v) <> s.queue_name
  unfolding resource_format
  named_resource s path v plain named given = rw (plain, given, vhost_path_named path v named) refl

  endpoint_confuses :
      {S B : Type 0} (net : Network S) (encoding : Encoding B (Received F)) (s : Settings F)
      (timeout : Duration) (v w q endpoint path : String)
      → s.use_regex ≡ false
      → IsNamed v
      → IsNamed (v <> w)
      → request_endpoint F net encoding
          (record s { vhost_name = some v; queue_name = w <> q })
          timeout
          endpoint
          path
        ≡ request_endpoint F net encoding
            (record s { vhost_name = some (v <> w); queue_name = q })
            timeout
            endpoint
            path
  unfolding request_endpoint request_options read_answer info_of resource_format
  endpoint_confuses net encoding s timeout v w q endpoint path plain named longer =
      let short : Settings F = record s { vhost_name = some v; queue_name = w <> q } in
      let long : Settings F = record s { vhost_name = some (v <> w); queue_name = q } in
      let same : resource_format F short path ≡ resource_format F long path =
        named_resource short path v plain named refl
        ∙ (ap (λ (r : String). "api/queues" <> r) (slashed v w q)
            ∙ sym (named_resource long path (v <> w) plain longer refl)) in
      ap
        (λ (r : String).
          and_then
            (request net
              (new_client
                (new_requester (json_encoding encoding.marshal encoding.unmarshal) timeout)
                endpoint)
              "GET" r (request_options F short))
            (read_answer F short))
        same
      ∙ rw plain refl

  -- Over HTTP, and where the settings do not ask by a regular expression, the name of a virtual host
  -- runs into the name of the queue: where neither `v` nor `v <> w` is empty or the default host `/`,
  -- a queue `w <> q` of the host `v` gets the same answer as a queue `q` of the host `v <> w`, whatever
  -- the server answers, for the path that is asked for is the same.
  pub request_via_http_confuses :
      {S B : Type 0} (urls : UrlLibrary) (net : Network S) (encoding : Encoding B (Received F))
      (s : Settings F) (timeout : Duration) (v w q : String)
      → s.use_regex ≡ false
      → IsNamed v
      → IsNamed (v <> w)
      → request_via_http F urls net encoding
          (record s { vhost_name = some v; queue_name = w <> q })
          timeout
        ≡ request_via_http F urls net encoding
            (record s { vhost_name = some (v <> w); queue_name = q })
            timeout
  unfolding request_via_http
  request_via_http_confuses urls net encoding s timeout v w q plain named longer =
      ap (and_then (urls.parse s.host)) (
        fun_ext λ url.
          endpoint_confuses net encoding s timeout v w q (urls.print_without_path url)
            (urls.path url) plain named longer)
