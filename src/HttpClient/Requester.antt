-- ===== src/HttpClient/Requester.antt =====
-- utils/http/client/request.go and its encoding/. `S` is the type of signers and `B` that of bodies.
-- resty is a parameter: it is given the request as the two hooks leave it.
use wing.Base.{
  if◌then◌else◌, ℤ, Dict, insert, ◌<>◌, Error, Result, and_then, ok, err, panic, Duration, String,
  Option, none, some, [], ◌∷◌, ◌==◌,
}
use wing.HttpClient.Options.{Query}

-- encoding.Encoding: Unmarshal may change its receiver also when it fails.
pub record Encoding (B V : Type 0) : Type 0 where
  pub marshal : B → Result String
  pub unmarshal : String → V → Option Error × V
  pub content_type : String

pub record Response : Type 0 where
  pub status_code : ℤ
  pub body : String

-- What is sent.
pub record Request : Type 0 where
  pub method : String
  pub url : String
  pub headers : Dict String
  pub body : Option String

-- What resty answers: a response, an error, or both.
abbrev pub Executed : Type 0
Executed = Option Response × Option Error

pub record Requester (B V : Type 0) : Type 0 where
  pub encoding : Encoding B V
  pub user_agent : String
  pub timeout : Duration

abbrev pub header_user_agent : String
header_user_agent = "User-Agent"

abbrev pub header_content_type : String
header_content_type = "Content-Type"

unfoldable pub json_encoding :
    {B V : Type 0} → (B → Result String) → (String → V → Option Error × V) → Encoding B V
json_encoding marshal unmarshal = record {
  marshal = marshal;
  unmarshal = unmarshal;
  content_type = "application/json";
}

-- `SetHeaders`, in the order in which the map is walked. resty sets a header under the canonical form
-- of its name, so that names which differ in case alone are one.
unfoldable pub set_headers : (String → String) → Dict String → Dict String → Dict String
unfolding insert
set_headers canonical [] headers = headers
set_headers canonical ((name, value) ∷ rest) headers =
    set_headers canonical rest (insert (canonical name) value headers)

-- The hook on a signed request comes last. A nil signer is none.
unfoldable pub pre_request_hook :
    {S : Type 0} → (S → Request → Request) → Option S → Request → Request
pre_request_hook sign none request = request
pre_request_hook sign (some signer) request = sign signer request

-- The code outside the repository that a request goes through: the method Sign of a signer,
-- `Values.Encode`, the canonical form of a header's name by net/textproto, and resty, which is given
-- the time limit and the request.
pub record Network (S : Type 0) : Type 0 where
  pub sign : S → Request → Request
  pub encode : Query → String
  pub canonical_header_key : String → String
  pub execute : Duration → Request → Executed

unfoldable pub full_url : (Query → String) → String → String → Query → String
full_url encode endpoint resource_format query =
    endpoint <> "/" <> resource_format <> "?" <> encode query

unfoldable pub perform :
    (Duration → Request → Executed) → Duration → Result Request → Result Executed
perform execute timeout (ok request) = ok (execute timeout request)
perform execute timeout (err e) = ok (none, some e)
perform execute timeout panic = panic

module _ {B V : Type 0} where
  unfoldable pub new_requester : Encoding B V → Duration → Requester B V
  new_requester encoding timeout = record {
    encoding = encoding;
    user_agent = "";
    timeout = timeout;
  }

  -- Nothing sets a header of the resty client itself. The two names are in canonical form.
  unfoldable pub on_before_request : Requester B V → Request → Request
  unfolding insert
  on_before_request r request =
      let named =
        if r.user_agent == ""
        then request.headers
        else insert header_user_agent r.user_agent request.headers in
      record request { headers = insert header_content_type r.encoding.content_type named }

  -- The text that `Marshal` gives, or no body.
  unfoldable pub encoded : Encoding B V → Option B → Result (Option String)
  encoded encoding none = ok none
  encoded encoding (some body) = and_then (encoding.marshal body) (λ text. ok (some text))

-- The request as the network sees it, or the error of its body's encoding.
unfoldable pub prepare :
    {S B V : Type 0}
    → Network S
    → Requester B V
    → Option S
    → String
    → String
    → Option B
    → Dict String
    → String
    → Query
    → Result Request
unfolding set_headers pre_request_hook on_before_request encoded full_url
prepare net r signer method endpoint request_body headers resource_format query =
    and_then (encoded r.encoding request_body) λ text. ok (
      pre_request_hook net.sign signer (
        on_before_request r (record {
          method = method;
          url = full_url net.encode endpoint resource_format query;
          headers = set_headers net.canonical_header_key headers [];
          body = text;
        })))
