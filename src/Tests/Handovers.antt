-- ===== src/Tests/Handovers.antt =====
-- A delivery of a hint to a node that comes back, and one that a newer hint comes between.
use diynamo.Base.{
  ℕ, Bytes, codes, ok, none, some, [], ◌∷◌, ◌≡◌, refl, inl, lex_lt, contains, starts_with,
}
use diynamo.Base.Utf8.{is_utf8}
use diynamo.Client.{with_http}
use diynamo.Store.Database.Ordered.{insert, seek, remove, remove-IsSorted}
use diynamo.Store.Memory.{Memory, empty, memory, memory-IsDatabase}
use diynamo.Server.{no_faults}
use diynamo.Network.{Cluster, send}
use diynamo.Network.Holds.{StoreHolds}
use diynamo.Store.Hints.{store_hint, hint_key, hints_for_node, delete_hint, scan}
use diynamo.Store.Hints.View.{hint_view}
use diynamo.Network.Delivered.{Deletes, hand_over-delivers}
use diynamo.Network.Delivered.Stale.{deliver_with-drops}
use diynamo.Coordinator.Handoff.Deliver.{deliver_with}
use diynamo.Network.Runs.{hand_over}
use diynamo.Tests.Fixtures.{
  database_or, stored_codec, stored_codec-IsBincode, hint_codec, hint_codec-IsBincode,
}
use diynamo.Tests.Returning.{Ready, takes, cluster}
use diynamo.Tests.Routes.{healthy, healthy-IsTransport}

-- A server that keeps a hint for `b`.
abbrev hinting : Cluster Memory
hinting = record cluster {
  node = λ u. record {
    store = empty;
    hints =
        database_or empty
          (store_hint memory hint_codec empty (codes "b") (codes "k") (codes "y") 5);
    faults = no_faults;
  };
}

deletes : Deletes memory hint_codec (codes "b") (λ db. Unit {0})
unfolding delete_hint
deletes db key o = (
  record {
    items = remove (hint_key (codes "b") key) db.items;
    sorted = remove-IsSorted (hint_key (codes "b") key) db.items db.sorted;
  },
  refl,
  tt,
)

abbrev handed_over : Cluster Memory
handed_over =
    hand_over healthy memory stored_codec hint_codec (ok tt) (codes "http://h:1") (codes "b")
      (codes "http://h:2") hinting

hand_over-delivers_example :
    ((key value : Bytes) (ts : ℕ)
      → hint_view hint_codec memory-IsDatabase
          (hinting.node (codes "http://h:1")).hints
          (codes "b")
          key
        ≡ some (record { timestamp = ts; data' = value })
      → StoreHolds memory-IsDatabase stored_codec-IsBincode hint_codec-IsBincode key value ts
          (handed_over.node (codes "http://h:2")).store)
    × ((key : Bytes)
        → hint_view hint_codec memory-IsDatabase
            (handed_over.node (codes "http://h:1")).hints
            (codes "b")
            key
          ≡ none)
unfolding hints_for_node scan store_hint hint_key seek lex_lt is_utf8 with_http contains insert
    starts_with
hand_over-delivers_example =
    hand_over-delivers healthy-IsTransport memory-IsDatabase stored_codec-IsBincode
      hint_codec-IsBincode (codes "http://h:1") (codes "b") (codes "http://h:2") hinting Ready
      (λ db. Unit {0}) ((codes "k", codes "y", 5) ∷ []) (λ m. refl) takes (refl, tt) deletes tt refl
      refl ((refl, refl, refl), tt)

-- A newer hint than the one that the delivery read.
abbrev newer_hint : Memory
newer_hint =
    database_or empty (store_hint memory hint_codec empty (codes "b") (codes "k") (codes "z") 9)

-- The delivery of the hint that was read.
abbrev delivery : Memory → Memory × Cluster Memory
delivery hints =
    deliver_with memory hint_codec (send healthy memory stored_codec hint_codec) (ok tt)
      (with_http (codes "http://h:2")) (codes "b") ((codes "k", codes "y", 5) ∷ []) hints cluster

deliver_with-drops_example :
    (hint_view hint_codec memory-IsDatabase (delivery newer_hint).0 (codes "b") (codes "k") ≡ none)
    × ((other : Memory) → (delivery newer_hint).1 ≡ (delivery other).1)
unfolding is_utf8 with_http contains
deliver_with-drops_example =
    deliver_with-drops healthy-IsTransport memory-IsDatabase stored_codec-IsBincode
      hint_codec-IsBincode (codes "b") (codes "http://h:2") cluster Ready (λ db. Unit {0})
      ((codes "k", codes "y", 5) ∷ []) newer_hint (codes "k") (codes "y") 5 (λ m. refl) takes
      (refl, tt) deletes tt refl ((refl, refl, refl), tt) (inl refl)
