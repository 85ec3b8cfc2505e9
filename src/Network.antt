-- ===== src/Network.antt =====
-- The servers of a cluster behind their base URLs, and what a request does to them: the route table
-- of src/server/mod.rs applied to the handlers of a node. What reqwest, the network and axum
-- contribute is a parameter: which request reaches which handler, and which messages are lost.
pub mod Holds
pub mod Puts
pub mod Reads
pub mod Steps
pub mod Strict
pub mod Live
pub mod Taken
pub mod Returns
pub mod Runs
pub mod Delivered
pub mod Healed
use diynamo.Base.{
  ℕ, suc, Bytes, bytes_eq, Bool, true, false, Error, message, Result, ok, err, Option, none, some,
  List, [], ◌∷◌, if◌then◌else◌, ◌≡◌, contains,
}
use diynamo.Base.Exec.{Exec}
use diynamo.Api.{
  GetResponse, PutBody, PutVersionedBody, Method, Body, empty, put_body, put_versioned_body,
  Request, Response,
}
use diynamo.Client.{
  KvClient, internal_kv_url, internal_kv_versioned_url, hint_url, put_request, get_request,
}
use diynamo.Server.{
  Node, Handled, answered, failed, put_kv_internal, put_kv_internal_versioned, put_hint_internal,
  get_kv_internal,
}
use diynamo.Store.Database.{Database, Bincode}
use diynamo.Store.RocksdbStore.{StoredEntry}
use diynamo.Store.Hints.{HintEntry}
use diynamo.Coordinator.{World}

-- An internal handler with the arguments that its extractors take from the request.
pub data Call : Type 0 where
  get_internal : Bytes → Call
  put_internal : Bytes → PutBody → Call
  put_versioned : Bytes → PutVersionedBody → Call
  put_hint : Bytes → Bytes → PutVersionedBody → Call

-- What happens to a message: it is answered, or the request or the reply is lost.
pub data Fate : Type 0 where
  arrives lost_request lost_reply : Fate

-- `locate` names the server and the handler that a request reaches; any other request is answered by
-- `reject`. `fate` and `clock` are those of the n-th message.
pub record Transport : Type 0 where
  pub locate : Request → Option (Bytes × Call)
  pub reject : Request → Response
  pub fate : ℕ → Fate
  pub clock : ℕ → ℕ
  -- the JSON error that a response without a body gives
  pub no_json : Error

-- What the requests of the client reach, for keys and ids that `is_plain` admits: those that stand in
-- the path of a URL as they are, such as non-empty strings of letters, digits, `-`, `_` and `~`.
pub record IsTransport (t : Transport) (is_plain : Bytes → Bool) : Type 0 where
  pub locate_get :
      (c : KvClient) (key : Bytes)
      → is_plain key ≡ true
      → t.locate (get_request (internal_kv_url c key)) ≡ some (c.base_url, get_internal key)
  pub locate_put_versioned :
      (c : KvClient) (key : Bytes) (body : PutVersionedBody)
      → is_plain key ≡ true
      → t.locate (put_request (internal_kv_versioned_url c key) (put_versioned_body body))
        ≡ some (c.base_url, put_versioned key body)
  pub locate_put_hint :
      (c : KvClient) (target_id key : Bytes) (body : PutVersionedBody)
      → is_plain target_id ≡ true
      → is_plain key ≡ true
      → t.locate (put_request (hint_url c target_id key) (put_versioned_body body))
        ≡ some (c.base_url, put_hint target_id key body)

-- All servers, by base URL, and the number of messages so far.
pub record Cluster (Db : Type 0) : Type 0 where
  pub node : Bytes → Node Db
  pub messages : ℕ

unfoldable pub set_node : {Db : Type 0} → Cluster Db → Bytes → Node Db → Cluster Db
set_node w url n = record w { node = λ u. if bytes_eq url u then n else w.node u }

unfoldable pub count_message : {Db : Type 0} → Cluster Db → Cluster Db
count_message w = record w { messages = suc w.messages }

module _ {Db : Type 0} (t : Transport) (api : Database Db) (stored : Bincode StoredEntry)
    (hinted : Bincode HintEntry) where
  -- A handler's `Result` as a response.
  unfoldable pub status_response : Handled ℕ → Response
  status_response (answered status) = record { status = status; json = err t.no_json }
  status_response (failed status) = record { status = status; json = err t.no_json }

  unfoldable pub json_response : Handled GetResponse → Response
  json_response (answered body) = record { status = 200; json = ok body }
  json_response (failed status) = record { status = status; json = err t.no_json }

  -- The internal routes of `router`.
  unfoldable pub dispatch : ℕ → Call → Node Db → Response × Node Db
  dispatch now (get_internal key) n = (json_response (get_kv_internal api stored hinted key n), n)
  dispatch now (put_internal key body) n =
      let (r, n') = put_kv_internal api stored hinted now key body n in (status_response r, n')
  dispatch now (put_versioned key body) n =
      let (r, n') = put_kv_internal_versioned api stored hinted key body n in
      (status_response r, n')
  dispatch now (put_hint target_id key body) n =
      let (r, n') = put_hint_internal api stored hinted target_id key body n in
      (status_response r, n')

  -- A request that arrives.
  unfoldable pub serve : Request → Option (Bytes × Call) → Cluster Db → Response × Cluster Db
  serve request none w = (t.reject request, w)
  serve request (some (url, call)) w =
      let (response, n) = dispatch (t.clock w.messages) call (w.node url) in
      (response, set_node w url n)

  unfoldable pub transmit : Fate → Request → Exec (Cluster Db) Response
  transmit arrives request w =
      let (response, w') = serve request (t.locate request) w in (ok response, w')
  transmit lost_request request w = (err (message "error sending request"), w)
  transmit lost_reply request w =
      let (response, w') = serve request (t.locate request) w in
      (err (message "operation timed out"), w')

  unfoldable pub send : Request → Exec (Cluster Db) Response
  send request w = transmit (t.fate w.messages) request (count_message w)

  -- The world of the coordinator that runs at `self_url`.
  abbrev pub world : Bytes → World Db (Cluster Db)
  world self_url = record {
    send = send;
    local = λ w. (w.node self_url).store;
    set_local = λ db w. set_node w self_url (record (w.node self_url) { store = db });
    now_millis = λ w. (t.clock w.messages, count_message w);
  }
