-- ===== src/Tests/Returning.antt =====
-- A node that comes back with an empty store, and the one that sends it a key.
use diynamo.Base.{
  ℕ, Bytes, codes, Bool, true, false, ok, Option, none, some, List, [], ◌∷◌, ◌≡◌, refl, arith, All,
  inl, inr, Bool-cases, if◌then◌else◌, leb, bytes_eq, lex_lt,
}
use diynamo.Base.Dict.{get}
use diynamo.Base.Utf8.{is_utf8}
use diynamo.Client.{with_http}
use diynamo.Cluster.Membership.{
  Memberlist, GossipNode, all_joined, node_state_to_member, online_members,
}
use diynamo.Cluster.Ring.{
  HashRing, owners_of, refuse_empty, collect_members, member_for, preference_list_for_key,
}
use diynamo.Coordinator.Handoff.Reconcile.{
  sends_key, sends_by, designated, is_self, contains_id, reconcile_keys,
}
use diynamo.Store.Database.Ordered.{Entries, lookup, insert, insert-IsSorted, seek}
use diynamo.Store.RocksdbStore.{put_if_newer, iter_all}
use diynamo.Store.Memory.{Memory, empty, memory, memory-IsDatabase}
use diynamo.Server.{no_faults}
use diynamo.Network.{Cluster, send}
use diynamo.Network.Holds.{StoreHolds}
use diynamo.Network.Live.{Takes}
use diynamo.Network.Returns.Restored.{reconcile_keys-restores}
use diynamo.Store.RocksdbStore.Lww.{view, decoded}
use diynamo.Tests.Fixtures.{
  stored_codec, stored_codec-IsBincode, hint_codec, hint_codec-IsBincode, ring_of,
}
use diynamo.Tests.Gossip.{addr}
use diynamo.Tests.Routes.{is_plain, healthy, healthy-IsTransport}

unfoldable pub is_cons : Bytes → Bool
is_cons [] = false
is_cons (x ∷ s) = true

-- Every stored value has a timestamp.
abbrev pub Ready : Memory → Type 0
Ready db = All (λ e. is_cons e.1 ≡ true) db.items

lookup-Ready :
    (k b : Bytes) (es : Entries)
    → All (λ e. is_cons e.1 ≡ true) es
    → lookup k es ≡ some b
    → is_cons b ≡ true
unfolding lookup
lookup-Ready k b [] a h = cc
lookup-Ready k b ((j, v) ∷ es) a h = ground (arith, lookup-Ready k b es a.1, a.0, h)

insert-Ready :
    (k v : Bytes) (es : Entries)
    → is_cons v ≡ true
    → All (λ e. is_cons e.1 ≡ true) es
    → All (λ e. is_cons e.1 ≡ true) (insert k v es)
unfolding insert
insert-Ready k v [] h a = (h, tt)
insert-Ready k v ((j, w) ∷ es) h a = elim (Bool-cases (bytes_eq j k)) [
  | inl same ↦ rw same (h, a.1)
  | inr other ↦ elim (Bool-cases (lex_lt k j)) [
    | inl before ↦ rw (other, before) (h, a)
    | inr behind ↦ rw (other, behind) (a.0, insert-Ready k v es h a.1)
  ]
]

takes_onto :
    (key value : Bytes) (ts : ℕ) (db : Memory) (o : Option Bytes)
    → Ready db
    → lookup key db.items ≡ o
    → (db' : Memory) × (put_if_newer memory stored_codec db key value ts ≡ ok db') × Ready db'
unfolding put_if_newer is_cons
takes_onto key value ts db none a e = (
  record {
    items = insert key (ts ∷ value) db.items;
    sorted = insert-IsSorted key (ts ∷ value) db.items db.sorted;
  },
  rw e refl,
  insert-Ready key (ts ∷ value) db.items refl a,
)
takes_onto key value ts db (some []) a e = cc (lookup-Ready key [] db.items a e)
takes_onto key value ts db (some (x ∷ s)) a e = elim (Bool-cases (leb ts x)) [
  | inl old ↦ (db, rw (e, old) refl, a)
  | inr new ↦ (
    record {
      items = insert key (ts ∷ value) db.items;
      sorted = insert-IsSorted key (ts ∷ value) db.items db.sorted;
    },
    rw (e, new) refl,
    insert-Ready key (ts ∷ value) db.items refl a,
  )
]

pub takes : (key value : Bytes) (ts : ℕ) → Takes memory stored_codec key value ts Ready
takes key value ts db a = takes_onto key value ts db (lookup key db.items) a refl

-- A ring that has owners for keys of one byte.
abbrev short_keys : HashRing (List Bytes)
short_keys = record {
  key_order = λ ids. ids;
  new = λ replicas vnodes. [];
  batch_add = λ ring ids. ids;
  get_owners = λ ring key. if is_plain key then ring else [];
}

abbrev online : Memberlist ℕ ℕ (Cluster Memory)
online = record {
  with_delegate = λ id bind m w. (ok (1, 2), w);
  join_many = λ h seeds w. (all_joined seeds, w);
  online_members = λ h w. (record { id = codes "a"; addr = addr; meta = [] } ∷ [], w);
  members = λ h w. ([], w);
  leave = λ h ms w. (ok true, w);
  shutdown = λ h w. (ok tt, w);
}

abbrev gossip : GossipNode ℕ ℕ
gossip = record {
  inner = 1;
  node_id = codes "a";
  gossip_bind = addr;
  event_sub = record { poisoned = false; value = none };
}

abbrev one_entry : Memory
one_entry = record { items = (codes "k", 5 ∷ codes "y") ∷ []; sorted = (tt, tt) }

abbrev pub cluster : Cluster Memory
cluster = record {
  node = λ u. record { store = empty; hints = empty; faults = no_faults };
  messages = 0;
}

reconcile_keys-restores_example :
    StoreHolds memory-IsDatabase stored_codec-IsBincode hint_codec-IsBincode
      (codes "k")
      (codes "y")
      5
      ((reconcile_keys short_keys online
          (send healthy memory stored_codec hint_codec)
          (ok tt)
          memory
          stored_codec
          one_entry
          (ring_of 2)
          gossip
          (codes "a")
          (codes "b")
          (codes "http://h:2")
          2
          cluster).node
        (codes "http://h:2")).store
unfolding online_members node_state_to_member iter_all seek lex_lt sends_key sends_by designated
    is_self contains_id preference_list_for_key owners_of refuse_empty collect_members member_for
    get is_utf8 bytes_eq with_http view decoded memory-IsDatabase lookup
reconcile_keys-restores_example =
    reconcile_keys-restores healthy-IsTransport memory-IsDatabase stored_codec-IsBincode
      hint_codec-IsBincode short_keys (ring_of 2) online gossip one_entry (codes "a") (codes "b")
      (codes "http://h:2") 2 cluster Ready (codes "k") (record { timestamp = 5; data' = codes "y" })
      (λ m. refl) takes (λ h. refl, tt) (refl, tt) tt refl refl refl refl
