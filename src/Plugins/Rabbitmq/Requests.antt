-- ===== src/Plugins/Rabbitmq/Requests.antt =====
-- plugins/scaler_rabbitmq/settings.go: the requests, over HTTP to the management API or over AMQP.
pub mod Paths
pub mod Channel
pub mod Answers
use wing.Base.{
  if◌then◌else◌, ℤ, pos, negsuc, ◌<>◌, Result, and_then, M, bind_at, message, ok, err, panic,
  Duration, Float64, ℕ, ◌+◌, String, ◌||◌, Option, none, some, List, [], ◌∷◌, ◌==◌,
}
use wing.HttpClient.Options.{
  Query, Setter, add_value, with_query, with_receiver, with_expected_status_code,
}
use wing.HttpClient.Requester.{Network, Encoding, new_requester, json_encoding}
use wing.HttpClient.Client.{Client, Answer, new_client, request}
use wing.Plugins.Rabbitmq.Queues.{QueueInfo, get_composed_queue}
use wing.Plugins.Rabbitmq.Settings.{
  Settings, mode_queue_length, protocol_http, message_type_all, message_type_ready,
  message_type_unacknowledged,
}

-- net/url: `print_without_path` is `String` of a URL whose path has been cleared.
pub record UrlLibrary : Type 1 where
  pub Url : Type 0
  pub parse : String → Result Url
  pub path : Url → String
  pub print_without_path : Url → String

-- What the receiver of the answer points to: one queue, or many.
pub data Received (F : Type 0) : Type 0 where
  one_info : QueueInfo F → Received F
  many_infos : List (QueueInfo F) → Received F

pub record DialConfig : Type 0 where
  pub timeout : Duration
  pub heartbeat : Duration
  pub locale : String

-- streadway/amqp: the dialing, the opening of a channel, and the count of messages of a queue.
pub record Amqp : Type 1 where
  pub Connection : Type 0
  pub Channel : Type 0
  pub dial : String → DialConfig → Result Connection
  pub channel : Connection → Result Channel
  pub queue_inspect : Channel → String → Result ℤ

-- The connections that were opened and closed so far.
pub record Connections : Type 0 where
  pub opened : ℕ
  pub closed : ℕ

abbrev pub default_heartbeat : Duration
default_heartbeat = pos 10_000_000_000

abbrev pub default_locale : String
default_locale = "en_US"

-- The path of the virtual host, by the URL's path and the name that the settings give.
unfoldable pub vhost_path : String → Option String → String
vhost_path path vhost_name =
    let vhost : String = elim vhost_name [ none ↦ path | some name ↦ "/" <> name ] in
    if vhost == "" || vhost == "/" || vhost == "//" then "/%2F/" else vhost

unfoldable pub regex_query : String → Query
unfolding add_value
regex_query queue_name =
    add_value "name" queue_name (add_value "pagination" "false" (add_value "use_regex" "true" []))

module _ (F : Type 0) ⦃f : Float64 F⦄ where
  open f use {of_int, constant}

  abbrev pub zero_info : QueueInfo F
  zero_info = record {
    messages = pos 0;
    messages_unacknowledged = pos 0;
    message_ready = pos 0;
    rate = constant 0 1;
    name = "";
  }

  -- The path of the request, behind the endpoint.
  unfoldable pub resource_format : Settings F → String → String
  unfolding vhost_path
  resource_format s path =
      if s.use_regex
      then "api/queues"
      else "api/queues" <> vhost_path path s.vhost_name <> s.queue_name

  unfoldable pub request_options : {S B : Type 0} → Settings F → List (Setter S B (Received F))
  unfolding with_expected_status_code with_query with_receiver regex_query
  request_options s =
      with_expected_status_code (pos 200)
      ∷ (if s.use_regex
          then with_query (regex_query s.queue_name)
            ∷ with_receiver (many_infos []) (message "invalid info list response body")
            ∷ []
          else with_receiver (one_info zero_info) (message "invalid info response body") ∷ [])

  -- The queue, after many were made one.
  unfoldable pub info_of : Settings F → Option (Received F) → Result (QueueInfo F)
  unfolding get_composed_queue
  info_of s none = ok zero_info
  info_of s (some (one_info info)) = ok info
  info_of s (some (many_infos infos)) = get_composed_queue F s.operation infos

  -- The messages stay at the -1 of their start if the type is none of the three.
  unfoldable pub messages_by_type : String → QueueInfo F → ℤ
  messages_by_type type info =
      if type == message_type_all
      then info.messages
      else if type == message_type_ready
      then info.message_ready
      else if type == message_type_unacknowledged
      then info.messages_unacknowledged
      else negsuc 0

  unfoldable pub read_answer : Settings F → Answer (Received F) → Result (ℤ × F)
  unfolding info_of messages_by_type
  read_answer s answer = elim answer.error [
    | some e ↦ err e
    | none ↦
        and_then (info_of s answer.receiver)
          λ info. ok (messages_by_type s.message_type info, info.rate)
  ]

  -- From the parsed URL on, of which the endpoint and the path are left.
  unfoldable pub request_endpoint :
      {S B : Type 0}
      → Network S
      → Encoding B (Received F)
      → Settings F
      → Duration
      → String
      → String
      → Result (ℤ × F)
  unfolding resource_format request_options request read_answer new_client new_requester
      json_encoding
  request_endpoint net encoding s timeout endpoint path =
      and_then
        (request net
          (new_client (new_requester (json_encoding encoding.marshal encoding.unmarshal) timeout)
            endpoint)
          "GET" (resource_format s path) (request_options s))
        (read_answer s)

  unfoldable pub request_via_http :
      {S B : Type 0}
      → UrlLibrary
      → Network S
      → Encoding B (Received F)
      → Settings F
      → Duration
      → Result (ℤ × F)
  unfolding request_endpoint
  request_via_http urls net encoding s timeout =
      and_then (urls.parse s.host)
        λ url. request_endpoint net encoding s timeout (urls.print_without_path url) (urls.path url)

  -- From the connection on: what was counted, and a rate of zero.
  unfoldable pub inspect : (amqp : Amqp) → Settings F → amqp.Connection → Result (ℤ × F)
  inspect amqp s connection = and_then (amqp.channel connection) λ channel.
      and_then (amqp.queue_inspect channel s.queue_name) λ messages. ok (messages, constant 0 1)

  -- The dialing. Only a connection that is there was opened.
  unfoldable pub open_connection :
      (amqp : Amqp) → Settings F → Duration → M Connections amqp.Connection
  open_connection amqp s timeout k =
      elim (amqp.dial s.host
        (record { timeout = timeout; heartbeat = default_heartbeat; locale = default_locale })) [
          | ok connection ↦ (ok connection, record k { opened = k.opened + 1 })
          | err e ↦ (err e, k)
          | panic ↦ (panic, k)
        ]

  -- The deferred `Close`, of which the error is dropped.
  unfoldable pub close_connection : Connections → Connections
  close_connection k = record k { closed = k.closed + 1 }

  -- `Close` is deferred once the connection is there, and runs whatever the rest returns.
  unfoldable pub request_via_channel : Amqp → Settings F → Duration → M Connections (ℤ × F)
  unfolding open_connection inspect close_connection
  request_via_channel amqp s timeout k =
      bind_at (open_connection amqp s timeout k)
        λ connection k'. (inspect amqp s connection, close_connection k')

  -- The metric, by the mode.
  unfoldable pub metric_by_mode : String → ℤ × F → F
  metric_by_mode mode (messages, publish_rate) =
      if mode == mode_queue_length then of_int messages else publish_rate

  -- The method `request` of the settings.
  unfoldable pub request_metric :
      {S B : Type 0}
      → UrlLibrary
      → Network S
      → Encoding B (Received F)
      → Amqp
      → Settings F
      → Duration
      → M Connections F
  unfolding request_via_http request_via_channel metric_by_mode
  request_metric urls net encoding amqp s timeout k =
      bind_at
        (if s.protocol == protocol_http
          then (request_via_http urls net encoding s timeout, k)
          else request_via_channel amqp s timeout k)
        λ answer k'. (ok (metric_by_mode s.mode answer), k')
