-- ===== src/Network/Steps/Sends.antt =====
-- The requests of the client (src/client/http.rs) by the steps of the cluster.
use diynamo.Base.{ℕ, Bytes, Bool, true, some, ◌≡◌, refl, Bool-cases, Result-cases, inl, inr}
use diynamo.Base.Utf8.{is_utf8}
use diynamo.Api.{Request, put_versioned_body}
use diynamo.Client.{
  KvClient, send_with, put_internal_versioned_bytes, put_hint_versioned_bytes, put_request,
  internal_kv_versioned_url, hint_url, get_internal_versioned, get_request, internal_kv_url,
}
use diynamo.Store.Database.{Database, Bincode}
use diynamo.Store.RocksdbStore.{StoredEntry}
use diynamo.Store.Hints.{HintEntry}
use diynamo.Network.{
  Transport, IsTransport, Fate, arrives, lost_request, lost_reply, Cluster, Call, put_versioned,
  get_internal, put_hint, serve, transmit, send, count_message,
}
use diynamo.Network.Holds.{body}
use diynamo.Network.Steps.{Reaches, counts, serves, is_timed}

module _ {Db : Type 0} {t : Transport} {is_plain : Bytes → Bool} (routing : IsTransport t is_plain)
    (api : Database Db) (stored : Bincode StoredEntry) (hinted : Bincode HintEntry)
    (w₀ : Cluster Db) where
  abbrev From : Cluster Db → Type 0
  From w = Reaches t api stored hinted w₀ w

  transmit-Reaches :
      (f : Fate) (request : Request) (url : Bytes) (call : Call) (w : Cluster Db)
      → t.locate request ≡ some (url, call)
      → is_timed call ≡ true
      → From w
      → From (transmit t api stored hinted f request w).1
  unfolding transmit serve
  transmit-Reaches arrives request url call w l timed r =
      rw l (serves url (t.clock w.messages) call r timed)
  transmit-Reaches lost_request request url call w l timed r = r
  transmit-Reaches lost_reply request url call w l timed r =
      rw l (serves url (t.clock w.messages) call r timed)

  send-Reaches :
      (request : Request) (url : Bytes) (call : Call) (w : Cluster Db)
      → t.locate request ≡ some (url, call)
      → is_timed call ≡ true
      → From w
      → From (send t api stored hinted request w).1
  unfolding send
  send-Reaches request url call w l timed r =
      transmit-Reaches (t.fate w.messages) request url call (count_message w) l timed (counts r)

  module _ (key value : Bytes) (ts : ℕ) (plain : is_plain key ≡ true) where
    pub versioned-Reaches :
        (c : KvClient) (w : Cluster Db)
        → From w
        → From (put_internal_versioned_bytes (send t api stored hinted) c key value ts w).1
    unfolding put_internal_versioned_bytes send_with is_timed
    versioned-Reaches c w r =
        let request =
          put_request (internal_kv_versioned_url c key) (put_versioned_body (body value ts)) in
        let sent =
          send-Reaches request c.base_url (put_versioned key (body value ts)) w
            (routing.locate_put_versioned c key (body value ts) plain) refl r in
        elim (Bool-cases (is_utf8 key)) [
          | inr bad ↦ rw bad r
          | inl good ↦ elim (Bool-cases (is_utf8 value)) [
            | inr bad ↦ rw (good, bad) r
            | inl fine ↦ elim (Result-cases (send t api stored hinted request w).0) [
              | inl (response, e) ↦ rw (good, fine, e) sent
              | inr (x, e) ↦ rw (good, fine, e) sent
            ]
          ]
        ]

    pub hint-Reaches :
        (c : KvClient) (target_id : Bytes) (w : Cluster Db)
        → is_plain target_id ≡ true
        → From w
        → From (put_hint_versioned_bytes (send t api stored hinted) c target_id key value ts w).1
    unfolding put_hint_versioned_bytes send_with is_timed
    hint-Reaches c target_id w p r =
        let request = put_request (hint_url c target_id key) (put_versioned_body (body value ts)) in
        let sent =
          send-Reaches request c.base_url (put_hint target_id key (body value ts)) w
            (routing.locate_put_hint c target_id key (body value ts) p plain) refl r in
        elim (Bool-cases (is_utf8 key)) [
          | inr bad ↦ rw bad r
          | inl good ↦ elim (Bool-cases (is_utf8 value)) [
            | inr bad ↦ rw (good, bad) r
            | inl fine ↦ elim (Result-cases (send t api stored hinted request w).0) [
              | inl (response, e) ↦ rw (good, fine, e) sent
              | inr (x, e) ↦ rw (good, fine, e) sent
            ]
          ]
        ]

  pub read-Reaches :
      (key : Bytes) (c : KvClient) (w : Cluster Db)
      → is_plain key ≡ true
      → From w
      → From (get_internal_versioned (send t api stored hinted) c key w).1
  unfolding get_internal_versioned send_with is_timed
  read-Reaches key c w plain r =
      let request = get_request (internal_kv_url c key) in
      let sent =
        send-Reaches request c.base_url (get_internal key) w (routing.locate_get c key plain) refl
          r in
      elim (Bool-cases (is_utf8 key)) [
        | inr bad ↦ rw bad r
        | inl good ↦ elim (Result-cases (send t api stored hinted request w).0) [
          | inl (response, e) ↦ rw (good, e) sent
          | inr (x, e) ↦ rw (good, e) sent
        ]
      ]
