-- ===== src/Network/Holds/Durable.antt =====
-- Who holds a write after one task of a coordinator's `put` (src/coordinator/mod.rs).
use diynamo.Base.{
  ℕ, Bytes, bytes_eq, bytes_eq_refl, bytes_eq→eq, Bool, true, not, ◌||◌, ok, ◌≡◌, inl, inr, arith,
  Bool-cases, Result-cases,
}
use diynamo.Client.{with_http}
use diynamo.Cluster.Types.{MemberInfo, internal_base_url}
use diynamo.Store.Database.{Database, Bincode}
use diynamo.Store.RocksdbStore.{StoredEntry, put_if_newer}
use diynamo.Store.Hints.{HintEntry}
use diynamo.Coordinator.Put.{write_task, local_write, remote_write, hint_write}
use diynamo.Coordinator.Put.Results.{Writes, Replicates}
use diynamo.Network.{Transport, IsTransport, Cluster, set_node, world, put_versioned, put_hint}
use diynamo.Network.Holds.{body}
use diynamo.Server.{Node}
use diynamo.Network.Holds.Sent.{
  IsReplica, Holds, Holds-set_node, put_internal_versioned-IsSent, put_hint_versioned-IsSent,
}

-- The server at a member's URL.
abbrev pub place : MemberInfo → Bytes
place m = (with_http (internal_base_url m)).base_url

-- If the member is the coordinator itself, its URL is the coordinator's.
abbrev pub is_addressed : Bytes → Bytes → MemberInfo → Bool
is_addressed self_id self_url m = not (bytes_eq m.id self_id) || bytes_eq (place m) self_url

-- What the handlers and the local store do for the predicate.
module _ {Db : Type 0} {t : Transport} {is_plain : Bytes → Bool} (routing : IsTransport t is_plain)
    (api : Database Db) (stored : Bincode StoredEntry) (hinted : Bincode HintEntry)
    (Held : Node Db → Type 0) (key value : Bytes) (ts : ℕ) where
  pub record Accepts : Type 0 where
    pub stores :
        (n : Node Db) (db : Db)
        → put_if_newer api stored n.store key value ts ≡ ok db
        → Held (record n { store = db })
    pub versioned : IsReplica routing api stored hinted Held (put_versioned key (body value ts))

module _ {Db : Type 0} {t : Transport} {is_plain : Bytes → Bool} {routing : IsTransport t is_plain}
    {api : Database Db} {stored : Bincode StoredEntry} {hinted : Bincode HintEntry}
    {Held : Node Db → Type 0} {key value : Bytes} {ts : ℕ}
    (a : Accepts routing api stored hinted Held key value ts) (self_id self_url : Bytes)
    (plain : is_plain key ≡ true) where
  local-keep :
      (u : Bytes) (w : Cluster Db)
      → Holds Held u w
      → Holds Held u
          (local_write (world t api stored hinted self_url) api stored self_id key value ts w).1
  unfolding local_write
  local-keep u w h =
      elim (Result-cases (put_if_newer api stored (w.node self_url).store key value ts)) [
        | inl (db, e) ↦
            rw (e, local_write)
              (Holds-set_node Held self_url u (record (w.node self_url) { store = db }) w h
                (λ _. a.stores (w.node self_url) db e))
        | inr (x, e) ↦ rw (e, local_write) h
      ]

  local-gain :
      (w : Cluster Db)
      → (local_write (world t api stored hinted self_url) api stored self_id key value ts w).0
        ≡ ok tt
      → Holds Held self_url
          (local_write (world t api stored hinted self_url) api stored self_id key value ts w).1
  unfolding local_write Holds set_node
  local-gain w h =
      elim (Result-cases (put_if_newer api stored (w.node self_url).store key value ts)) [
        | inl (db, e) ↦
            rw (e, local_write, bytes_eq_refl self_url) (a.stores (w.node self_url) db e)
        | inr (x, e) ↦ ground (arith, e, h)
      ]

  write-keep :
      (u : Bytes) (c : MemberInfo) (w : Cluster Db)
      → Holds Held u w
      → Holds Held u
          (write_task (world t api stored hinted self_url) api stored self_id key value ts c w).1
  unfolding write_task remote_write
  write-keep u c w h = elim (Bool-cases (bytes_eq c.id self_id)) [
    | inl self ↦ rw self (local-keep u w h)
    | inr peer ↦ rw peer (
        (put_internal_versioned-IsSent routing api stored hinted Held key value ts plain a.versioned
            (with_http (internal_base_url c))).keep
          u w h)
  ]

  write-gain :
      (c : MemberInfo) (w : Cluster Db)
      → is_addressed self_id self_url c ≡ true
      → (write_task (world t api stored hinted self_url) api stored self_id key value ts c w).0
        ≡ ok tt
      → Holds Held
          (place c)
          (write_task (world t api stored hinted self_url) api stored self_id key value ts c w).1
  unfolding write_task remote_write
  write-gain c w addressed h = elim (Bool-cases (bytes_eq c.id self_id)) [
    | inl self ↦
        let here : place c ≡ self_url =
          bytes_eq→eq (place c) self_url (ground (arith, self, addressed)) in
        rw (self, here) (local-gain w (rw self at h))
    | inr peer ↦ rw peer (
        (put_internal_versioned-IsSent routing api stored hinted Held key value ts plain a.versioned
            (with_http (internal_base_url c))).gain
          w (rw peer at h))
  ]

  pub Writes-cluster :
      Writes
        (world t api stored hinted self_url)
        api
        stored
        self_id
        key
        value
        ts
        (is_addressed self_id self_url)
        (λ m w. Holds Held (place m) w)
  Writes-cluster = record {
    keep_write = λ m c w h. write-keep (place m) c w h;
    write_ok = λ m w addressed h. write-gain m w addressed h;
  }

  pub Replicates-cluster :
      ((target_id : Bytes)
        → IsReplica routing api stored hinted Held (put_hint target_id key (body value ts)))
      → Replicates
          (world t api stored hinted self_url)
          api
          stored
          self_id
          key
          value
          ts
          (is_addressed self_id self_url)
          (λ m w. Holds Held (place m) w)
          is_plain
  unfolding hint_write
  Replicates-cluster r = record {
    writes = Writes-cluster;
    keep_hint = λ m c target_id w s h.
        (put_hint_versioned-IsSent routing api stored hinted Held key value ts plain target_id
            (r target_id) (with_http (internal_base_url c)) s).keep
          (place m) w h;
    hint_ok = λ m target_id w addressed s h.
        (put_hint_versioned-IsSent routing api stored hinted Held key value ts plain target_id
            (r target_id) (with_http (internal_base_url m)) s).gain
          w h;
  }
