-- ===== src/Network/Delivered.antt =====
-- What a returning node has after a delivery of hints (`deliver_hints`, src/coordinator/handoff.rs) on the
-- cluster, and what the hint store keeps.
pub mod Stale
use diynamo.Base.{
  ℕ, Bytes, bytes_eq, bytes_eq_refl, contains, Bool, true, false, ok, none, some, List, [], ◌∷◌,
  ◌≡◌, ◌⊎◌, inl, inr, sym, ap, ◌∙◌, subst, In, All, Bool-cases, Option-cases,
}
use diynamo.Base.Utf8.{is_utf8}
use diynamo.Client.{KvClient, with_http, put_internal_versioned_bytes}
use diynamo.Store.Database.{Database, IsDatabase, Bincode, IsBincode}
use diynamo.Store.RocksdbStore.{StoredEntry}
use diynamo.Store.Hints.{HintEntry, hints_for_node, delete_hint}
use diynamo.Store.Hints.View.{hint_view, hints_for_node_exact, hint_view-delete_hint}
use diynamo.Coordinator.Handoff.Deliver.{
  deleted_from, try_delete, after_answer, deliver_all, deliver_hints-ok,
}
use diynamo.Network.{Transport, IsTransport, arrives, Cluster, set_node, send}
use diynamo.Network.Holds.{StoreHolds, InStore}
use diynamo.Network.Holds.Sent.{Holds, Holds-set_node}
use diynamo.Network.Live.{Takes, Serving}
use diynamo.Network.Taken.{versioned-Up, versioned-StoreHolds, versioned-ok}
use diynamo.Network.Runs.{hand_over}
use diynamo.Network.Steps.{now, Reaches-StoreHolds}
use diynamo.Network.Steps.Handoffs.{deliver_all-Reaches}

-- A hint store from which hints of the node can be deleted, as one that is `Ready` can.
abbrev pub Deletes :
    {Db : Type 0} → Database Db → Bincode HintEntry → Bytes → (Db → Type 0) → Type 0
Deletes {Db} api hinted node_id Ready =
    (db : Db) (key : Bytes)
    → Ready db
    → (db' : Db) × (delete_hint api hinted db node_id key ≡ ok db') × Ready db'

-- A pending hint that a request can carry: its key stands in a URL's path as it is, and both are text.
abbrev pub IsCarried : (Bytes → Bool) → Bytes × Bytes × ℕ → Type 0
IsCarried is_plain (key, value, ts) =
    (is_plain key ≡ true) × (is_utf8 key ≡ true) × (is_utf8 value ≡ true)

module _ {Db : Type 0} {t : Transport} {is_plain : Bytes → Bool} (routing : IsTransport t is_plain)
    {api : Database Db} {stored : Bincode StoredEntry} {hinted : Bincode HintEntry}
    (laws : IsDatabase api) (coding : IsBincode stored) (hint_coding : IsBincode hinted)
    (arriving : (m : ℕ) → t.fate m ≡ arrives) (Ready : Db → Type 0)
    (takes : (key value : Bytes) (ts : ℕ) → Takes api stored key value ts Ready)
    (Open : Db → Type 0) (node_id : Bytes) (deletes : Deletes api hinted node_id Open)
    (plain_id : contains node_id b'/' ≡ false) (c : KvClient) where
  abbrev delivered : List (Bytes × Bytes × ℕ) → Db → Cluster Db → Db × Cluster Db
  delivered = deliver_all api hinted (send t api stored hinted) c node_id

  plain_keys :
      (pending : List (Bytes × Bytes × ℕ))
      → All (IsCarried is_plain) pending
      → All (λ h. is_plain h.0 ≡ true) pending
  plain_keys [] a = tt
  plain_keys ((key, value, ts) ∷ pending) a = (a.0.0, plain_keys pending a.1)

  received :
      (pending : List (Bytes × Bytes × ℕ)) (hints : Db) (w : Cluster Db) (key value : Bytes)
      (ts : ℕ)
      → All (IsCarried is_plain) pending
      → Serving Ready (w.node c.base_url)
      → In {A = Bytes × Bytes × ℕ} (key, value, ts) pending
      → StoreHolds laws coding hint_coding key value ts
          ((delivered pending hints w).1.node c.base_url).store
  unfolding deliver_all
  received [] hints w key value ts a u m = absurd m
  received ((j, v, s) ∷ pending) hints w key value ts (h, a) u (inr m) =
      received pending _ _ key value ts a
        (versioned-Up routing laws coding hint_coding arriving Ready takes c j v s h.0 c.base_url w
          u)
        m
  received ((j, v, s) ∷ pending) hints w key value ts (h, a) u (inl e) =
      let w' = (put_internal_versioned_bytes (send t api stored hinted) c j v s w).1 in
      let there : StoreHolds laws coding hint_coding key value ts (w'.node c.base_url).store =
        subst
          (λ (x : Bytes × Bytes × ℕ).
            StoreHolds laws coding hint_coding x.0 x.1 x.2 (w'.node c.base_url).store)
          (sym e)
          (versioned-StoreHolds routing laws coding hint_coding arriving Ready takes c j v s h.0 h.1
            h.2 w u) in
      Reaches-StoreHolds t laws coding hint_coding key value ts w' _ c.base_url
        (deliver_all-Reaches routing api stored hinted w' c node_id pending _ w'
          (plain_keys pending a) now)
        there

  -- A hint of the node at the key that is still to be handed over, or none.
  abbrev Listed : Bytes → List (Bytes × Bytes × ℕ) → Db → Type 0
  Listed key pending hints =
      (hint_view hinted laws hints node_id key ≡ none)
      ⊎ ((value : Bytes) × (ts : ℕ) × In {A = Bytes × Bytes × ℕ} (key, value, ts) pending)

  still :
      (pending : List (Bytes × Bytes × ℕ)) (hints hints' : Db) (key j v : Bytes) (s : ℕ)
      → bytes_eq j key ≡ false
      → hint_view hinted laws hints' node_id key ≡ hint_view hinted laws hints node_id key
      → Listed key ((j, v, s) ∷ pending) hints
      → Listed key pending hints'
  still pending hints hints' key j v s other kept (inl n) = inl (kept ∙ n)
  still pending hints hints' key j v s other kept (inr (value, ts, inr m)) = inr (value, ts, m)
  still pending hints hints' key j v s other kept (inr (value, ts, inl e)) =
      let same : key ≡ j = ap (λ (x : Bytes × Bytes × ℕ). x.0) e in
      cc (rw (← same, bytes_eq_refl key) at other)

  cleared :
      (pending : List (Bytes × Bytes × ℕ)) (hints : Db) (w : Cluster Db) (key : Bytes)
      → All (IsCarried is_plain) pending
      → Open hints
      → Serving Ready (w.node c.base_url)
      → Listed key pending hints
      → hint_view hinted laws (delivered pending hints w).0 node_id key ≡ none
  unfolding deliver_all after_answer try_delete deleted_from
  cleared [] hints w key a o u (inl n) = n
  cleared [] hints w key a o u (inr (v, ts, m)) = absurd m
  cleared ((j, v, s) ∷ pending) hints w key (h, a) o u l =
      let (hints', e, o') = deletes hints j o in
      let done =
        versioned-ok routing laws coding hint_coding arriving Ready takes c j v s h.0 h.1 h.2 w u in
      let u' =
        versioned-Up routing laws coding hint_coding arriving Ready takes c j v s h.0 c.base_url w
          u in
      let seen =
        hint_view-delete_hint hinted laws hints node_id j hints' node_id key plain_id plain_id e in
      rw (done, deliver_all, e)
        (cleared pending hints'
          (put_internal_versioned_bytes (send t api stored hinted) c j v s w).1 key a o' u'
          (elim (Bool-cases (bytes_eq j key)) [
            | inl same ↦ inl (rw (bytes_eq_refl node_id, same) at seen)
            | inr other ↦
                let kept = rw (bytes_eq_refl node_id, other) at seen in
                still pending hints hints' key j v s other kept l
          ]))

  -- Every key's hint is pending, or there is none.
  pending_or_none :
      (pending : List (Bytes × Bytes × ℕ)) (hints : Db) (key : Bytes)
      → hints_for_node api hinted hints node_id ≡ ok pending
      → Listed key pending hints
  pending_or_none pending hints key e =
      elim (Option-cases (hint_view hinted laws hints node_id key)) [
        | inl n ↦ inl n
        | inr (h, there) ↦ inr (
          h.data',
          h.timestamp,
          (hints_for_node_exact hinted laws hints node_id pending key h.data' h.timestamp e).1
              there,
        )
      ]

-- Suppose that no message is lost, that the returning node does not block internal requests and has
-- a store that is ready for writes and stays so, that the client can be built, that hints can be
-- read and deleted, and that a request can carry the hints that are pending for the node. Then,
-- after a delivery from the hint store of some server, the returning node's store has the write of
-- every hint that was kept for it, or a newer one at its key, and the hint store has no hint for it
-- any more.
pub hand_over-delivers :
    {Db : Type 0} {t : Transport} {is_plain : Bytes → Bool} (routing : IsTransport t is_plain)
    {api : Database Db} {stored : Bincode StoredEntry} {hinted : Bincode HintEntry}
    (laws : IsDatabase api) (coding : IsBincode stored) (hint_coding : IsBincode hinted)
    (url node_id node_url : Bytes) (w : Cluster Db) (Ready Open : Db → Type 0)
    (pending : List (Bytes × Bytes × ℕ))
    → ((m : ℕ) → t.fate m ≡ arrives)
    → ((k v : Bytes) (ts : ℕ) → Takes api stored k v ts Ready)
    → Serving Ready (w.node (with_http node_url).base_url)
    → Deletes api hinted node_id Open
    → Open (w.node url).hints
    → contains node_id b'/' ≡ false
    → hints_for_node api hinted (w.node url).hints node_id ≡ ok pending
    → All (IsCarried is_plain) pending
    → ((key value : Bytes) (ts : ℕ)
        → hint_view hinted laws (w.node url).hints node_id key
          ≡ some (record { timestamp = ts; data' = value })
        → StoreHolds laws coding hint_coding key value ts
            ((hand_over t api stored hinted (ok tt) url node_id node_url w).node
              (with_http node_url).base_url).store)
      × ((key : Bytes)
          → hint_view hinted laws
              ((hand_over t api stored hinted (ok tt) url node_id node_url w).node url).hints
              node_id
              key
            ≡ none)
unfolding hand_over set_node Holds
hand_over-delivers {t = t} routing {api = api} {stored = stored} {hinted = hinted} laws coding
      hint_coding url node_id node_url w Ready Open pending arriving takes up deletes is_open
      plain_id read carried =
    let hints = (w.node url).hints in
    let done =
      deliver_hints-ok api hinted (send t api stored hinted) node_id node_url pending hints w
        read in
    let (hints', w') =
      deliver_all api hinted (send t api stored hinted) (with_http node_url) node_id pending hints
        w in
    (
      λ key value ts h. rw done (
          Holds-set_node (InStore laws coding hint_coding key value ts) url
            (with_http node_url).base_url (record (w'.node url) { hints = hints' }) w'
            (received routing laws coding hint_coding arriving Ready takes Open node_id deletes
              plain_id (with_http node_url) pending hints w key value ts carried up
              ((hints_for_node_exact hinted laws hints node_id pending key value ts read).1 h))
            (λ b. b)),
      λ key.
          rw (done, bytes_eq_refl url)
            (cleared routing laws coding hint_coding arriving Ready takes Open node_id deletes
              plain_id (with_http node_url) pending hints w key carried is_open up
              (pending_or_none routing laws coding hint_coding arriving Ready takes Open node_id
                deletes plain_id (with_http node_url) pending hints key read)),
    )
