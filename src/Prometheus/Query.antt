-- ===== src/Prometheus/Query.antt =====
-- utils/scalerprovider/prometheus/query_client.go. Escaping, net/http, reading a body and
-- encoding/json are the arguments in `Http`.
use wing.Base.{
  eqb, if◌then◌else◌, ℤ, ◌-ℤ◌, quot, pos, ◌<>◌, itoa, Error, Result, and_then, deref, message, ok,
  err, Time, second, ℕ, ◌/◌, String, Bool, false, not, Option, none, some, List, [], ◌∷◌,
}

pub record Server : Type 0 where
  pub server_address : Option String
  pub insecure_ssl : Option Bool
  pub bearer_token : Option String
  pub username : Option String
  pub password : Option String

abbrev pub null_value : Error
null_value = message "query returns null value"

abbrev pub multiple_value : Error
multiple_value = message "query returns multiple values"

pub record VectorData (F : Type 0) : Type 0 where
  pub result_type : String
  pub result : List F

pub record VectorResponse (F : Type 0) : Type 0 where
  pub status : String
  pub error_type : String
  pub error : String
  pub warnings : List String
  pub vector_data : VectorData F

pub data Authorization : Type 0 where
  anonymous : Authorization
  bearer : String → Authorization
  basic : String → String → Authorization

pub record Request : Type 0 where
  pub url : String
  pub authorization : Authorization

pub record Response : Type 0 where
  pub status_code : ℕ
  pub body : Result String

pub record Http (F : Type 0) : Type 0 where
  pub query_escape : String → String
  -- http.NewRequest accepts the URL or not.
  pub new_request : String → Result (Unit {0})
  -- The exchange, with the certificate unchecked if the first argument is true.
  pub exchange : Bool → Request → Result Response
  pub unmarshal : String → Result (VectorResponse F)

unfoldable pub get_pointer_bool_value : Option Bool → Bool → Bool
get_pointer_bool_value none default_value = default_value
get_pointer_bool_value (some b) default_value = b

-- Seconds since 1970 of a time, which counts from the year 1.
abbrev pub unix : Time → ℤ
unfolding quot ◌-ℤ◌
unix t = quot t second -ℤ pos 62_135_596_800

abbrev pub password_of : Option String → String
password_of none = ""
password_of (some p) = p

unfoldable pub authorize : Server → Authorization
authorize server = elim server.bearer_token [
  | some token ↦ bearer ("Bearer " <> token)
  | none ↦ elim server.username [
    | some user ↦ basic user (password_of server.password)
    | none ↦ anonymous
  ]
]

unfoldable pub single_value : {F : Type 0} → List F → Result F
single_value [] = err null_value
single_value (v ∷ []) = ok v
single_value (v ∷ w ∷ vs) = err multiple_value

module _ (F : Type 0) (http : Http F) where
  unfoldable pub read_response : String → Response → Result F
  unfolding single_value itoa
  read_response address resp = and_then resp.body λ body.
      if not (eqb (resp.status_code / 100) 2)
      then err (
          message (
            "unable to fetch metric from prometheus server `"
            <> address
            <> "`, status code "
            <> itoa (pos resp.status_code)
            <> " body: `"
            <> body
            <> "`"))
      else and_then (http.unmarshal body) λ vector. single_value vector.vector_data.result

  -- On an error the method returns -1 beside it.
  unfoldable pub query_server : Server → String → Time → Result F
  unfolding itoa authorize get_pointer_bool_value read_response
  query_server server query when = and_then (deref server.server_address) λ address.
      let url =
        address
        <> "/api/v1/query?query="
        <> http.query_escape query
        <> "&time="
        <> itoa (unix when) in
      and_then (http.new_request url) λ _.
        and_then
          (http.exchange (get_pointer_bool_value server.insecure_ssl false)
            (record { url = url; authorization = authorize server }))
          (read_response address)
