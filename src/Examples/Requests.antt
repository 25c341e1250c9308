-- ===== src/Examples/Requests.antt =====
-- The HTTP client and the requests of the RabbitMQ scaler, against servers that answer always alike.
use wing.Base.{
  if◌then◌else◌, true-ne-false, ℤ, ◌<ℤ◌, pos, lookup, message, ok, stopped, Exact, exact, String,
  ◌≡◌, refl, sym, false, none, some, List, [], ◌∷◌, ◌==◌, eq_iff,
}
use wing.Engine.Interfaces.{ScalerContext, ScalerState, ScalerOutput}
use wing.HttpClient.Options.{
  Options, Setter, new_options, apply_options, with_receiver, with_expected_status_code,
}
use wing.HttpClient.Requester.{
  Network, Encoding, Request, Response, prepare, pre_request_hook, encoded, header_content_type,
}
use wing.HttpClient.Client.{Answer, Client, Answer, request}
use wing.HttpClient.Client.Laws.{Success, request-Success, prepare_signs_last}
use wing.Plugins.Rabbitmq.Queues.{QueueInfo}
use wing.Plugins.Rabbitmq.Settings.{
  Settings, mode_message_rate, mode_queue_length, protocol_http, protocol_amqp, message_type_all,
  get_status_metric_name,
}
use wing.Plugins.Rabbitmq.Scaler.{ScalerConfig, conclude_metric}
use wing.Plugins.Rabbitmq.Requests.{
  UrlLibrary, Received, one_info, Amqp, Connections, info_of, messages_by_type, request_via_http,
  request_metric,
}
use wing.Plugins.Rabbitmq.Requests.Answers.{receiver_of, queue_request, request_via_http_success}
use wing.Plugins.Rabbitmq.Requests.Channel.{amqp_rate_wants_none}
use wing.Plugins.Rabbitmq.Requests.Paths.{request_via_http_confuses}
use wing.Examples.Data.{no_status, web_autoscaler}

-- A signer that puts the text in a header.
abbrev sign_with : String → Request → Request
sign_with signer r = record r { headers = ("Authorization", signer) ∷ r.headers }

abbrev answers : ℤ → String → Network String
answers status_code body = record {
  sign = sign_with;
  encode = λ query. "";
  canonical_header_key = λ name. name;
  execute = λ timeout sent. (some (record { status_code = status_code; body = body }), none);
}

-- A receiver of text takes any body but the empty one.
abbrev plain_text : Encoding String String
plain_text = record {
  marshal = λ body. ok body;
  unmarshal = λ body old. (if body == "" then some (message "empty") else none, body);
  content_type = "text/plain";
}

abbrev text_client : Client String String
text_client = record {
  requester = record { encoding = plain_text; user_agent = ""; timeout = pos 5 };
  endpoint = "http://localhost";
}

abbrev text_options : List (Setter String String String)
text_options = with_expected_status_code (pos 200) ∷ with_receiver "" (message "bad status") ∷ []

abbrev set_options : Options String String String
set_options = record {
  signer = none;
  query = [];
  body = none;
  headers = [];
  receiver = some "";
  expected_status_code = pos 200;
  default_error = some (message "bad status");
}

abbrev hello : Response
hello = record { status_code = pos 200; body = "hello" }

request-Success_example :
    Success text_client set_options
      (record { response = some hello; error = none; receiver = some "hello" })
unfolding request apply_options new_options with_expected_status_code with_receiver
request-Success_example =
    request-Success (answers (pos 200) "hello") text_client "GET" "greeting" text_options
      set_options (record { response = some hello; error = none; receiver = some "hello" }) refl
      refl refl

abbrev greeting : Request
greeting = record {
  method = "GET";
  url = "http://localhost/greeting?";
  headers = ("Content-Type", "text/plain") ∷ [];
  body = none;
}

abbrev failure : Response
failure = record { status_code = pos 500; body = "down" }

abbrev signed : Request
signed = record {
  method = "POST";
  url = "http://localhost/greeting?";
  headers = ("Authorization", "secret") ∷ ("Content-Type", "text/plain") ∷ [];
  body = some "hello";
}

prepare_signs_last_example :
    (draft : Request) × (signed ≡ pre_request_hook sign_with (some "secret") draft)
    × (lookup header_content_type draft.headers ≡ some "text/plain")
    × (encoded plain_text (some "hello") ≡ ok draft.body)
unfolding prepare
prepare_signs_last_example =
    prepare_signs_last (answers (pos 200) "") text_client.requester (some "secret") "POST"
      "http://localhost" (some "hello") (("Content-Type", "application/xml") ∷ []) "greeting" []
      signed refl

abbrev hosts : UrlLibrary
hosts = record {
  Url = String;
  parse = λ host. ok host;
  path = λ url. "";
  print_without_path = λ url. url;
}

abbrev three_messages : QueueInfo Exact
three_messages = record {
  messages = pos 3;
  messages_unacknowledged = pos 1;
  message_ready = pos 2;
  rate = (pos 7, 1);
  name = "jobs";
}

-- Every body is that of one queue with three messages.
abbrev three : Encoding String (Received Exact)
three = record {
  marshal = λ body. ok body;
  unmarshal = λ body old. (none, one_info three_messages);
  content_type = "application/json";
}

abbrev over_http : Settings Exact
over_http = record {
  mode = mode_queue_length;
  value = (pos 2, 1);
  host = "http://localhost";
  protocol = protocol_http;
  timeout = none;
  queue_name = "jobs";
  vhost_name = none;
  message_type = message_type_all;
  use_regex = false;
  operation = "";
  metric_name = "";
}

request_via_http_success_example :
    (url : String) × (r : Response) × (received : Received Exact) × (info : QueueInfo Exact)
    × (hosts.parse over_http.host ≡ ok url)
    × ((answers (pos 200) "{}").execute
          (pos 5)
          (queue_request Exact ⦃f = exact⦄ (answers (pos 200) "{}") over_http url "")
        ≡ (some r, none))
    × (r.status_code <ℤ pos 400)
    × (three.unmarshal r.body (receiver_of Exact ⦃f = exact⦄ over_http) ≡ (none, received))
    × (info_of Exact ⦃f = exact⦄ over_http (some received) ≡ ok info)
    × (◌≡◌ {A = ℤ × Exact}
        (pos 3, (pos 7, 1))
        (messages_by_type Exact ⦃f = exact⦄ over_http.message_type info, info.rate))
unfolding request_via_http
request_via_http_success_example =
    request_via_http_success Exact ⦃f = exact⦄ hosts (answers (pos 200) "{}") three over_http
      (pos 5) (pos 3, (pos 7, 1)) refl

request_via_http_confuses_example :
    request_via_http Exact ⦃f = exact⦄ hosts
      (answers (pos 200) "{}")
      three
      (record over_http { vhost_name = some "shop"; queue_name = "-eu-jobs" })
      (pos 5)
    ≡ request_via_http Exact ⦃f = exact⦄ hosts
        (answers (pos 200) "{}")
        three
        (record over_http { vhost_name = some "shop-eu"; queue_name = "-jobs" })
        (pos 5)
request_via_http_confuses_example =
    request_via_http_confuses Exact ⦃f = exact⦄ hosts (answers (pos 200) "{}") three over_http
      (pos 5) "shop" "-eu" "-jobs" refl ((λ e. cc), (λ e. cc)) ((λ e. cc), (λ e. cc))

-- A broker whose queues all have nine messages.
abbrev nine : Amqp
nine = record {
  Connection = Unit {0};
  Channel = Unit {0};
  dial = λ host config. ok tt;
  channel = λ connection. ok tt;
  queue_inspect = λ channel name. ok (pos 9);
}

abbrev rate_over_amqp : Settings Exact
rate_over_amqp = record over_http { mode = mode_message_rate; protocol = protocol_amqp }

abbrev no_connections : Connections
no_connections = record { opened = 0; closed = 0 }

abbrev tenth : ScalerConfig Exact ⦃f = exact⦄
tenth = record { toleration = (pos 1, 10); default_timeout = pos 5 }

abbrev two_workers : ScalerContext
two_workers = record {
  raw_settings = "{}";
  scale_target_ref = web_autoscaler.spec.scale_target_ref;
  namespace = "default";
  scaled_object_selector = "app=web";
  current_replicas = pos 2;
}

abbrev at_rest : ScalerState
at_rest = record { status = no_status; clock = stopped (pos 0) }

abbrev no_replicas : ScalerOutput
no_replicas = record { desired_replicas = pos 0; managed_target_status = "rabbitmq/jobs/rate" ∷ [] }

amqp_rate_wants_none_example : no_replicas.desired_replicas ≡ pos 0
unfolding conclude_metric request_metric exact get_status_metric_name
amqp_rate_wants_none_example =
    amqp_rate_wants_none Exact ⦃f = exact⦄ hosts (answers (pos 200) "{}") three nine tenth
      two_workers rate_over_amqp (pos 5) no_connections at_rest no_replicas refl
      (λ e. true-ne-false (sym ((eq_iff protocol_amqp protocol_http).1 e)))
      (λ e. true-ne-false (sym ((eq_iff mode_message_rate mode_queue_length).1 e))) refl
