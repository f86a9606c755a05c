-- ===== src/Timestamp/Client.antt =====
-- TSAClient of drs-verify/pkg/anchor/rfc3161.go. The DER encoder and the HTTP client are parameters.
use drs.Prelude.{
  ℕ, ◌+◌, ◌*◌, Bool, true, not, ◌&&◌, Option, none, some, eqb, ltb, if◌then◌else◌, length, take,
  Result, err, ok, fail_if, ◌>>=◌, ◌>>◌,
}
use drs.Prelude.Text.{Text, codes, ◌==◌}
use drs.Timestamp.Token.{Oid, sha256_oid}

abbrev pub tsa_response_content_type : Text
tsa_response_content_type = codes "application/timestamp-reply"

abbrev pub tsa_request_content_type : Text
tsa_request_content_type = codes "application/timestamp-query"

abbrev pub tsa_response_size_limit : ℕ
tsa_response_size_limit = 64 * 1024

-- timeStampReq, whose algorithm has explicit NULL parameters
pub record TimeStampReq : Type 0 where
  pub version : ℕ
  pub hash_algorithm : Oid
  pub hashed_message : Text
  pub cert_req : Bool

-- The bytes of a body that can be read, and whether reading fails after them.
pub record Body : Type 0 where
  pub content : Text
  pub broken : Bool

pub record Response : Type 0 where
  pub status_code : ℕ
  pub content_type : Text
  pub body : Body

pub record Web : Type 0 where
  -- asn1.Marshal
  pub marshal : TimeStampReq → Option Text
  -- http.NewRequest accepts the endpoint's URL.
  pub is_url : Text → Bool
  -- a POST to the endpoint, with its content type and its body
  pub post : Text → Text → Text → Option Response

pub data ClientError : Type 0 where
  asn1_marshal build_http_request http_request_failed : ClientError
  unexpected_status : ℕ → ClientError
  unexpected_content_type : Text → ClientError
  read_response_body body_too_large : ClientError

abbrev pub found : {A : Type 0} → ClientError → Option A → Result ClientError A
found e none = err e
found e (some a) = ok a

-- io.ReadAll of an io.LimitReader: a failure past the limit is not met.
unfoldable pub read_limited : ℕ → Body → Option Text
read_limited n body =
    if body.broken && ltb (length body.content) n then none else some (take n body.content)

-- One client: `web` and its endpoint.
module _ (web : Web) (endpoint : Text) where
  unfoldable pub build_timestamp_request : Text → Result ClientError Text
  build_timestamp_request hash = found asn1_marshal (
      web.marshal (record {
        version = 1;
        hash_algorithm = sha256_oid;
        hashed_message = hash;
        cert_req = true;
      }))

  unfoldable pub post_request : Text → Result ClientError Response
  post_request body = do
    fail_if (not (web.is_url endpoint)) build_http_request
    found http_request_failed (web.post endpoint tsa_request_content_type body)

  unfoldable pub timestamp : Text → Result ClientError Text
  unfolding build_timestamp_request post_request read_limited ◌==◌
  timestamp hash = do
    req ← build_timestamp_request hash
    resp ← post_request req
    fail_if (not (eqb resp.status_code 200)) (unexpected_status resp.status_code)
    fail_if (not (resp.content_type == tsa_response_content_type))
        (unexpected_content_type resp.content_type)
    token ← found read_response_body (read_limited (tsa_response_size_limit + 1) resp.body)
    fail_if (ltb tsa_response_size_limit (length token)) body_too_large
    ok token
