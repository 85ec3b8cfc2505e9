-- ===== src/Client.antt =====
-- src/client/http.rs: the HTTP client of one node. The transport (crate reqwest) is a parameter:
-- it takes a request and gives a response or an error, and changes the world.
pub mod Laws
use diynamo.Base.{
  ℕ, Bytes, codes, Result, ok, err, message, context, Option, none, some, List, [], ◌∷◌, ◌++◌, ◌==◌,
  ◌&&◌, Bool, leb, ltb, if◌then◌else◌, String,
}
use diynamo.Base.Exec.{Exec, ◌>>=◌, ◌>>◌, lift}
use diynamo.Base.Utf8.{is_utf8}
use diynamo.Api.{
  PutBody, PutVersionedBody, GetResponse, Method, Body, empty, put_body, put_versioned_body,
  Request, Response, status_ok, status_not_found,
}
use diynamo.Store.{VersionedValue}

-- `KvClient`, less the connection pool.
pub record KvClient : Type 0 where
  pub base_url : Bytes
  pub request_timeout : Option ℕ

-- `str::trim_end_matches('/')`
trim_end_slashes : Bytes → Bytes
trim_end_slashes [] = []
trim_end_slashes (c ∷ s) = elim (trim_end_slashes s) [
  | [] ↦ if c == b'/' then [] else c ∷ []
  | d ∷ t ↦ c ∷ d ∷ t
]

-- `KvClient::with_http`
unfoldable pub with_http : Bytes → KvClient
unfolding trim_end_slashes
with_http base_url = record { base_url = trim_end_slashes base_url; request_timeout = none }

-- `DEFAULT_REQUEST_TIMEOUT`, in milliseconds
abbrev pub default_request_timeout : ℕ
default_request_timeout = 1000

-- `build` is reqwest's `Client::builder().timeout(..).build()`; the connection pool that it gives is in the
-- transport.
module _ (build : ℕ → Result (Unit {0})) where
  unfoldable pub shared_http_client_with_timeout : ℕ → Result (Unit {0})
  shared_http_client_with_timeout timeout = context "failed to build HTTP client" (build timeout)

  unfoldable pub shared_http_client : Result (Unit {0})
  unfolding shared_http_client_with_timeout
  shared_http_client = shared_http_client_with_timeout default_request_timeout

  -- `KvClient::new`
  unfoldable pub new : Bytes → Result KvClient
  unfolding shared_http_client
  new base_url = elim shared_http_client [ ok http ↦ ok (with_http base_url) | err e ↦ err e ]

  -- `KvClient::with_timeout`
  unfoldable pub with_timeout : Bytes → ℕ → Result KvClient
  unfolding shared_http_client_with_timeout
  with_timeout base_url timeout = elim (shared_http_client_with_timeout timeout) [
    | ok http ↦ ok (with_http base_url)
    | err e ↦ err e
  ]

unfoldable pub with_request_timeout : KvClient → ℕ → KvClient
with_request_timeout c timeout = record c { request_timeout = some timeout }

-- `KvClient::apply_timeout`
unfoldable pub apply_timeout : KvClient → Request → Option ℕ → Request
apply_timeout c request (some t) = record request { timeout = some t }
apply_timeout c request none = elim c.request_timeout [
  | some t ↦ record request { timeout = some t }
  | none ↦ request
]

unfoldable pub kv_url : KvClient → Bytes → Bytes
kv_url c key = c.base_url ++ codes "/kv/" ++ key

unfoldable pub internal_kv_url : KvClient → Bytes → Bytes
internal_kv_url c key = c.base_url ++ codes "/internal/kv/" ++ key

unfoldable pub internal_kv_versioned_url : KvClient → Bytes → Bytes
internal_kv_versioned_url c key = c.base_url ++ codes "/internal/kv-versioned/" ++ key

unfoldable pub hint_url : KvClient → Bytes → Bytes → Bytes
hint_url c target_id key = c.base_url ++ codes "/internal/hint/" ++ target_id ++ codes "/" ++ key

-- `http.put(url).json(&body)`, `http.get(url)`
unfoldable pub put_request : Bytes → Body → Request
put_request url body = record { method = Method.put; url = url; body = body; timeout = none }

unfoldable pub get_request : Bytes → Request
get_request url = record { method = Method.get; url = url; body = empty; timeout = none }

-- `std::str::from_utf8(..).context(..)`
utf8 : String → Bytes → Result Bytes
utf8 msg s = if is_utf8 s then ok s else err (message msg)

-- `status.is_success()`
abbrev pub is_success : ℕ → Bool
is_success status = leb 200 status && ltb status 300

-- the end of every `put`: success, or an error with the status
unfoldable pub check_status : String → Response → Result (Unit {0})
check_status msg response = if is_success response.status then ok tt else err (message msg)

-- the `match` of `get_with_timeout`
unfoldable pub read_response : Response → Result GetResponse
read_response response =
    if response.status == status_ok
    then context "failed to decode get response" response.json
    else if response.status == status_not_found
    then err (message "key not found")
    else err (message "get failed")

versioned_value : GetResponse → VersionedValue
versioned_value body = record { timestamp = body.timestamp; data' = body.value }

-- the `match` of `get_internal_versioned`
unfoldable pub read_internal_response : Response → Result (Option VersionedValue)
unfolding versioned_value
read_internal_response response =
    if response.status == status_ok
    then elim response.json [
      | ok body ↦ ok (some (versioned_value body))
      | err e ↦ err (message "failed to decode internal get response")
    ]
    else if response.status == status_not_found
    then ok none
    else err (message "internal get failed")

module _ {W : Type 0} (send : Request → Exec W Response) where
  -- `.send().await.context(..)`
  unfoldable pub send_with : String → Request → Exec W Response
  send_with msg request w = let (r, w') = send request w in (context msg r, w')

  unfoldable pub put_with_timeout : KvClient → Bytes → Bytes → Option ℕ → Exec W (Unit {0})
  put_with_timeout c key value timeout = do
    response ←
        send_with "put request failed" (
          apply_timeout c (put_request (kv_url c key) (put_body (record { value = value })))
            timeout)
    lift (check_status "put failed" response)

  unfoldable pub put : KvClient → Bytes → Bytes → Exec W (Unit {0})
  put c key value = put_with_timeout c key value none

  unfoldable pub get_with_timeout : KvClient → Bytes → Option ℕ → Exec W GetResponse
  get_with_timeout c key timeout = do
    response ← send_with "get request failed" (apply_timeout c (get_request (kv_url c key)) timeout)
    lift (read_response response)

  unfoldable pub get : KvClient → Bytes → Exec W GetResponse
  get c key = get_with_timeout c key none

  unfoldable pub put_internal_bytes : KvClient → Bytes → Bytes → Exec W (Unit {0})
  unfolding utf8
  put_internal_bytes c key value = do
    key ← lift (utf8 "key must be UTF-8" key)
    value ← lift (utf8 "value must be UTF-8" value)
    response ←
        send_with "internal put request failed"
          (put_request (internal_kv_url c key) (put_body (record { value = value })))
    lift (check_status "internal put failed" response)

  unfoldable pub put_internal_versioned_bytes : KvClient → Bytes → Bytes → ℕ → Exec W (Unit {0})
  unfolding utf8
  put_internal_versioned_bytes c key value timestamp = do
    key ← lift (utf8 "key must be UTF-8" key)
    value ← lift (utf8 "value must be UTF-8" value)
    response ← send_with "versioned internal put request failed" (
        put_request (internal_kv_versioned_url c key)
          (put_versioned_body (record { value = value; timestamp = timestamp })))
    lift (check_status "versioned internal put failed" response)

  unfoldable pub put_hint_versioned_bytes : KvClient → Bytes → Bytes → Bytes → ℕ → Exec W (Unit {0})
  unfolding utf8
  put_hint_versioned_bytes c target_id key value timestamp = do
    key ← lift (utf8 "key must be UTF-8" key)
    value ← lift (utf8 "value must be UTF-8" value)
    response ← send_with "hint put request failed" (
        put_request (hint_url c target_id key)
          (put_versioned_body (record { value = value; timestamp = timestamp })))
    lift (check_status "hint put failed" response)

  unfoldable pub get_internal_versioned : KvClient → Bytes → Exec W (Option VersionedValue)
  unfolding utf8
  get_internal_versioned c key = do
    key ← lift (utf8 "key must be UTF-8" key)
    response ← send_with "internal get request failed" (get_request (internal_kv_url c key))
    lift (read_internal_response response)
