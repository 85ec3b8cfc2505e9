-- ===== src/Network/Delivered/Stale.antt =====
-- A hint that is stored while a delivery of its target's hints is under way (`deliver_hints`,
-- src/coordinator/handoff.rs).
use diynamo.Base.{ℕ, Bytes, contains, Bool, false, ok, none, List, [], ◌∷◌, ◌≡◌, refl, inr, In, All}
use diynamo.Base.Exec.{Exec}
use diynamo.Api.{Request, Response}
use diynamo.Client.{KvClient, with_http}
use diynamo.Store.Database.{Database, IsDatabase, Bincode, IsBincode}
use diynamo.Store.RocksdbStore.{StoredEntry}
use diynamo.Store.Hints.{HintEntry}
use diynamo.Store.Hints.View.{hint_view}
use diynamo.Coordinator.Handoff.Deliver.{deliver_all, deliver_with, deliver_with-ok}
use diynamo.Network.{Transport, IsTransport, arrives, Cluster, send}
use diynamo.Network.Live.{Takes, Serving}
use diynamo.Network.Delivered.{Deletes, IsCarried, cleared}

-- The requests of a delivery come from what was read, not from what the hint store holds by then.
deliver_all-sent :
    {Db W : Type 0} (api : Database Db) (hinted : Bincode HintEntry)
    (request : Request → Exec W Response) (c : KvClient) (node_id : Bytes)
    (pending : List (Bytes × Bytes × ℕ)) (hints other : Db) (w : W)
    → (deliver_all api hinted request c node_id pending hints w).1
      ≡ (deliver_all api hinted request c node_id pending other w).1
unfolding deliver_all
deliver_all-sent api hinted request c node_id [] hints other w = refl
deliver_all-sent api hinted request c node_id ((key, value, ts) ∷ pending) hints other w =
    deliver_all-sent api hinted request c node_id pending _ _ _

-- Let the loop of `deliver_hints` run on hints that were read earlier, while the store holds others
-- by now. Suppose that no message is lost, that the returning node does not block internal requests
-- and has a store that is ready for writes and stays so, that the client can be built, that hints
-- can be deleted, and that a request can carry the hints that were read. Then no hint is left at a
-- key of which one was read, whichever hint the store holds there by now, and the cluster is as it
-- would be if the store held any other hints: a newer hint for the key is deleted and not
-- delivered.
pub deliver_with-drops :
    {Db : Type 0} {t : Transport} {is_plain : Bytes → Bool} (routing : IsTransport t is_plain)
    {api : Database Db} {stored : Bincode StoredEntry} {hinted : Bincode HintEntry}
    (laws : IsDatabase api) (coding : IsBincode stored) (hint_coding : IsBincode hinted)
    (node_id node_url : Bytes) (w : Cluster Db) (Ready Open : Db → Type 0)
    (pending : List (Bytes × Bytes × ℕ)) (hints : Db) (key value : Bytes) (ts : ℕ)
    → ((m : ℕ) → t.fate m ≡ arrives)
    → ((k v : Bytes) (s : ℕ) → Takes api stored k v s Ready)
    → Serving Ready (w.node (with_http node_url).base_url)
    → Deletes api hinted node_id Open
    → Open hints
    → contains node_id b'/' ≡ false
    → All (IsCarried is_plain) pending
    → In {A = Bytes × Bytes × ℕ} (key, value, ts) pending
    → (hint_view hinted laws
          (deliver_with api hinted
            (send t api stored hinted)
            (ok tt)
            (with_http node_url)
            node_id
            pending
            hints
            w).0
          node_id
          key
        ≡ none)
      × ((other : Db)
          → (deliver_with api hinted
              (send t api stored hinted)
              (ok tt)
              (with_http node_url)
              node_id
              pending
              hints
              w).1
            ≡ (deliver_with api hinted
                (send t api stored hinted)
                (ok tt)
                (with_http node_url)
                node_id
                pending
                other
                w).1)
deliver_with-drops {t = t} routing {api = api} {stored = stored} {hinted = hinted} laws coding
      hint_coding node_id node_url w Ready Open pending hints key value ts arriving takes up deletes
      is_open plain_id carried read =
    let request = send t api stored hinted in
    let runs = deliver_with-ok api hinted request (with_http node_url) node_id pending in
    (
      rw (runs hints w) (
          cleared routing laws coding hint_coding arriving Ready takes Open node_id deletes plain_id
            (with_http node_url) pending hints w key carried is_open up (inr (value, ts, read))),
      λ other.
          rw (runs hints w, runs other w)
            (deliver_all-sent api hinted request (with_http node_url) node_id pending hints other
              w),
    )
