-- ===== src/Api.antt =====
-- src/api/types.rs: the JSON bodies, and the requests and responses that carry them.
use diynamo.Base.{ℕ, Bytes, Option, Result}

pub record PutBody : Type 0 where
  pub value : Bytes

pub record PutVersionedBody : Type 0 where
  pub value : Bytes
  pub timestamp : ℕ

pub record GetResponse : Type 0 where
  pub value : Bytes
  pub timestamp : ℕ

pub data Method : Type 0 where
  get put : Method

-- `.json(&body)`, or no body.
pub data Body : Type 0 where
  empty : Body
  put_body : PutBody → Body
  put_versioned_body : PutVersionedBody → Body

-- What `reqwest::RequestBuilder` has gathered; the timeout is in milliseconds.
pub record Request : Type 0 where
  pub method : Method
  pub url : Bytes
  pub body : Body
  pub timeout : Option ℕ

-- A response: its status, and what decoding its body as a `GetResponse` gives.
pub record Response : Type 0 where
  pub status : ℕ
  pub json : Result GetResponse

-- `StatusCode`
abbrev pub status_ok : ℕ
status_ok = 200

abbrev pub status_not_found : ℕ
status_not_found = 404

abbrev pub status_internal_server_error : ℕ
status_internal_server_error = 500

abbrev pub status_service_unavailable : ℕ
status_service_unavailable = 503
