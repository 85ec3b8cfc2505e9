-- ===== src/Network/Holds/Sent.antt =====
-- Who holds a write after a request of the client (src/client/http.rs) to a server.
use diynamo.Base.{
  ℕ, Bytes, bytes_eq, bytes_eq_refl, bytes_eq→eq, Bool, true, ok, ok-injective, String, some, ◌≡◌,
  inl, inr, sym, subst, arith, Bool-cases, Result-cases,
}
use diynamo.Base.Exec.{Exec, continue, lift}
use diynamo.Base.Utf8.{is_utf8}
use diynamo.Api.{Request, Response}
use diynamo.Client.{
  KvClient, is_success, send_with, check_status, put_internal_versioned_bytes,
  put_hint_versioned_bytes,
}
use diynamo.Server.{Node}
use diynamo.Store.Database.{Database, Bincode}
use diynamo.Store.RocksdbStore.{StoredEntry}
use diynamo.Store.Hints.{HintEntry}
use diynamo.Network.{
  Transport, IsTransport, Fate, arrives, lost_request, lost_reply, Cluster, Call, put_versioned,
  put_hint, set_node, count_message, dispatch, serve, transmit, send,
}
use diynamo.Network.Holds.{body}

-- The server at a URL holds what is asked.
module _ {Db : Type 0} (Held : Node Db → Type 0) where
  unfoldable pub Holds : Bytes → Cluster Db → Type 0
  Holds url w = Held (w.node url)

  pub Holds-set_node :
      (url u : Bytes) (n : Node Db) (w : Cluster Db)
      → Holds u w
      → (Holds url w → Held n)
      → Holds u (set_node w url n)
  unfolding Holds set_node
  Holds-set_node url u n w h f = elim (Bool-cases (bytes_eq url u)) [
    | inl e ↦ rw e (f (rw (bytes_eq→eq url u e) h))
    | inr e ↦ rw e h
  ]

  Holds-messages : (u : Bytes) (w : Cluster Db) → Holds u w → Holds u (count_message w)
  unfolding Holds count_message
  Holds-messages u w h = h

module _ {Db : Type 0} {t : Transport} {is_plain : Bytes → Bool} (routing : IsTransport t is_plain)
    (api : Database Db) (stored : Bincode StoredEntry) (hinted : Bincode HintEntry)
    (Held : Node Db → Type 0) where
  abbrev dispatch' : ℕ → Call → Node Db → Response × Node Db
  dispatch' = dispatch t api stored hinted

  -- What a call of a handler does to the holding of the write.
  pub record IsReplica (call : Call) : Type 0 where
    pub keeps : (now : ℕ) (n : Node Db) → Held n → Held (dispatch' now call n).1
    pub gains :
        (now : ℕ) (n : Node Db)
        → is_success (dispatch' now call n).0.status ≡ true
        → Held (dispatch' now call n).1

  serve-Holds :
      (request : Request) (u url : Bytes) (call : Call) (w : Cluster Db)
      → IsReplica call
      → Holds Held u w
      → Holds Held u (serve t api stored hinted request (some (url, call)) w).1
  unfolding serve
  serve-Holds request u url call w r h =
      Holds-set_node Held url u (dispatch' (t.clock w.messages) call (w.node url)).1 w h
        (unfold Holds in r.keeps (t.clock w.messages) (w.node url))

  send-keeps :
      (request : Request) (u url : Bytes) (call : Call) (w : Cluster Db)
      → t.locate request ≡ some (url, call)
      → IsReplica call
      → Holds Held u w
      → Holds Held u (send t api stored hinted request w).1
  unfolding send transmit
  send-keeps request u url call w l r h =
      let h' = Holds-messages Held u w h in
      let kept = serve-Holds request u url call (count_message w) r h' in
      elim (t.fate w.messages)
        as (λ f. Holds Held u (transmit t api stored hinted f request (count_message w)).1) [
          | arrives ↦ rw l kept
          | lost_request ↦ h'
          | lost_reply ↦ rw l kept
        ]

  serve-gains :
      (request : Request) (url : Bytes) (call : Call) (w : Cluster Db)
      → IsReplica call
      → is_success (serve t api stored hinted request (some (url, call)) w).0.status ≡ true
      → Holds Held url (serve t api stored hinted request (some (url, call)) w).1
  unfolding serve Holds set_node
  serve-gains request url call w r e =
      rw (bytes_eq_refl url) (r.gains (t.clock w.messages) (w.node url) e)

  transmit-gains :
      (f : Fate) (request : Request) (url : Bytes) (call : Call) (response : Response)
      (w : Cluster Db)
      → t.locate request ≡ some (url, call)
      → IsReplica call
      → (transmit t api stored hinted f request w).0 ≡ ok response
      → is_success response.status ≡ true
      → Holds Held url (transmit t api stored hinted f request w).1
  unfolding transmit
  transmit-gains arrives request url call response w l r e s =
      let e' = ok-injective _ _ e in
      let s' = subst (λ (x : Response). is_success x.status ≡ true) (sym e') s in
      rw l (serve-gains request url call w r (rw l at s'))
  transmit-gains lost_request request url call response w l r e s = cc
  transmit-gains lost_reply request url call response w l r e s = cc

  send-gains :
      (request : Request) (url : Bytes) (call : Call) (response : Response) (w : Cluster Db)
      → t.locate request ≡ some (url, call)
      → IsReplica call
      → (send t api stored hinted request w).0 ≡ ok response
      → is_success response.status ≡ true
      → Holds Held url (send t api stored hinted request w).1
  unfolding send
  send-gains request url call response w l r e s =
      transmit-gains (t.fate w.messages) request url call response (count_message w) l r e s

  -- A put of the client to a replica call: whatever its outcome it keeps the write where it is, and
  -- if it succeeds the write is at the server called.
  abbrev Put : Type 0
  Put = Exec (Cluster Db) (Unit {0})

  pub record IsSent (url : Bytes) (put : Put) : Type 0 where
    pub keep : (u : Bytes) (w : Cluster Db) → Holds Held u w → Holds Held u (put w).1
    pub gain : (w : Cluster Db) → (put w).0 ≡ ok tt → Holds Held url (put w).1

  -- The send and the test of the status that end every put.
  abbrev send_and_check : String → String → Request → Put
  send_and_check msg status_msg request w =
      continue (send_with (send t api stored hinted) msg request w).0
        (λ response. lift (check_status status_msg response))
        (send_with (send t api stored hinted) msg request w).1

  send_and_check-IsSent :
      (msg status_msg : String) (request : Request) (url : Bytes) (call : Call)
      → t.locate request ≡ some (url, call)
      → IsReplica call
      → IsSent url (send_and_check msg status_msg request)
  unfolding send_with check_status
  send_and_check-IsSent msg status_msg request url call l r = record {
    keep = λ u w h.
        let kept = send-keeps request u url call w l r h in
        elim (Result-cases (send t api stored hinted request w).0) [
          | inl (response, e) ↦ rw e kept
          | inr (x, e) ↦ rw e kept
        ];
    gain = λ w h. elim (Result-cases (send t api stored hinted request w).0) [
      | inl (response, e) ↦
          rw e (send-gains request url call response w l r e (ground (arith, rw e at h)))
      | inr (x, e) ↦ ground (arith, e, h)
    ];
  }

  -- The client's two puts, for a key that stands in a URL as it is.
  module _ (key value : Bytes) (ts : ℕ) (plain : is_plain key ≡ true) where
    pub put_internal_versioned-IsSent :
        IsReplica (put_versioned key (body value ts))
        → (c : KvClient)
        → IsSent c.base_url (put_internal_versioned_bytes (send t api stored hinted) c key value ts)
    unfolding put_internal_versioned_bytes
    put_internal_versioned-IsSent r c =
        let sent =
          send_and_check-IsSent "versioned internal put request failed"
            "versioned internal put failed" _ c.base_url (put_versioned key (body value ts))
            (routing.locate_put_versioned c key (body value ts) plain) r in
        elim (Bool-cases (is_utf8 key)) [
          | inr bad ↦ rw bad (record { keep = λ u w h. h; gain = λ w h. cc })
          | inl good ↦ elim (Bool-cases (is_utf8 value)) [
            | inr bad ↦ rw (good, bad) (record { keep = λ u w h. h; gain = λ w h. cc })
            | inl fine ↦ rw (good, fine) sent
          ]
        ]

    pub put_hint_versioned-IsSent :
        (target_id : Bytes)
        → IsReplica (put_hint target_id key (body value ts))
        → (c : KvClient) → is_plain target_id ≡ true
        → IsSent c.base_url
            (put_hint_versioned_bytes (send t api stored hinted) c target_id key value ts)
    unfolding put_hint_versioned_bytes
    put_hint_versioned-IsSent target_id r c p =
        let sent =
          send_and_check-IsSent "hint put request failed" "hint put failed" _ c.base_url
            (put_hint target_id key (body value ts))
            (routing.locate_put_hint c target_id key (body value ts) p plain) r in
        elim (Bool-cases (is_utf8 key)) [
          | inr bad ↦ rw bad (record { keep = λ u w h. h; gain = λ w h. cc })
          | inl good ↦ elim (Bool-cases (is_utf8 value)) [
            | inr bad ↦ rw (good, bad) (record { keep = λ u w h. h; gain = λ w h. cc })
            | inl fine ↦ rw (good, fine) sent
          ]
        ]
