-- ===== src/Network/Healed/Due.antt =====
-- The replicas that need a repair behind a read (`get`, src/coordinator/mod.rs), and those that need none.
use diynamo.Base.{
  ℕ, ◌<◌, Bytes, bytes_eq, bytes_eq→eq, bytes_eq_refl, Bool, true, false, ◌&&◌, Result, ok, err,
  ok-injective, Option, none, some, List, [], ◌∷◌, ◌≡◌, sym, ap, subst, arith, In, Bool-cases, inl,
  inr, guard-eq-ok, ltb, length, Option-cases,
}
use diynamo.Base.Bags.{count, In-count}
use diynamo.Cluster.Types.{MemberInfo}
use diynamo.Server.{Node}
use diynamo.Store.{VersionedValue}
use diynamo.Store.Database.{Database, IsDatabase, Bincode, IsBincode}
use diynamo.Store.RocksdbStore.{StoredEntry, versioned}
use diynamo.Store.RocksdbStore.Lww.{view, get-view}
use diynamo.Store.Hints.{HintEntry}
use diynamo.Coordinator.{JoinSet}
use diynamo.Coordinator.Put.Results.{joined_results}
use diynamo.Coordinator.Put.Live.{NoPanic}
use diynamo.Coordinator.Get.{
  ReadResult, ReadResponse, Repair, collect_responses, resolve_read, spawn_repairs, winner_of,
  needs_repair,
}
use diynamo.Coordinator.Get.Repairs.{spawn_repairs_iff, needs_repair-Stale}
use diynamo.Network.Holds.{StoreHolds}
use diynamo.Network.Healed.Replies.{Answers}

-- An answer that is missing or older than the timestamp.
abbrev due : ℕ → Result (Option VersionedValue) → Bool
due ts (ok opt) = needs_repair ts opt
due ts (err e) = false

due_response :
    (ts : ℕ) (url : Bytes) (rs : List (Option ReadResult))
    → 0 < count (λ (r : ReadResult). bytes_eq r.0 url && due ts r.1) (joined_results rs)
    → (opt : Option VersionedValue) × In {A = ReadResponse} (url, opt) (collect_responses rs)
      × (needs_repair ts opt ≡ true)
unfolding collect_responses joined_results count
due_response ts url [] h = absurd (omega arith)
due_response ts url (none ∷ rs) h = due_response ts url rs h
due_response ts url (some (u, err e) ∷ rs) h = due_response ts url rs (ground (arith, h))
due_response ts url (some (u, ok opt) ∷ rs) h =
    elim (Bool-cases (bytes_eq u url && needs_repair ts opt)) [
      | inl here ↦ (
        opt,
        inl (ap (λ (x : Bytes). (x, opt)) (sym (bytes_eq→eq u url (ground (arith, here))))),
        ground (arith, here),
      )
      | inr other ↦ let (o, i, n) = due_response ts url rs (rw other at h) in (o, inr i, n)
    ]

pub resolve_read-ok :
    (r : ℕ) (responses : List ReadResponse) (found : Option VersionedValue) (repairs : List Repair)
    → resolve_read r responses ≡ ok (found, repairs)
    → (winner_of responses ≡ found) × (spawn_repairs (winner_of responses) responses ≡ repairs)
unfolding resolve_read
resolve_read-ok r responses found repairs h =
    let (enough, e) = guard-eq-ok (ltb (length responses) r) _ _ h in
    let e' = ok-injective _ _ e in
    (
      ap (λ (x : Option VersionedValue × List Repair). x.0) e',
      ap (λ (x : Option VersionedValue × List Repair). x.1) e',
    )

-- A replica that answered with less than the winner has a repair.
pub due_repair :
    (tasks : JoinSet MemberInfo ReadResult) (no_panic : NoPanic tasks) (results : List ReadResult)
    (url : Bytes) (found : Option VersionedValue) (v : VersionedValue) (repairs : List Repair)
    → In {A = ReadResult} (url, ok found) results
    → needs_repair v.timestamp found ≡ true
    → winner_of (collect_responses (tasks.joined results)) ≡ some v
    → spawn_repairs
        (winner_of (collect_responses (tasks.joined results)))
        (collect_responses (tasks.joined results))
      ≡ repairs
    → In {A = Repair} (url, v) repairs
due_repair tasks no_panic results url found v repairs i need won spawned =
    let late = λ (r : ReadResult). bytes_eq r.0 url && due v.timestamp r.1 in
    let mine : late (url, ok found) ≡ true = ground (arith, bytes_eq_refl url, need) in
    let (opt, i', need') =
      due_response v.timestamp url (tasks.joined results)
        (omega (arith, no_panic results late, In-count late (url, ok found) results i mine)) in
    subst (λ (rs : List Repair). In {A = Repair} (url, v) rs) spawned
      ((spawn_repairs_iff (collect_responses (tasks.joined results)) url v).1
        (won, (opt, i', needs_repair-Stale v opt need')))

module _ {Db : Type 0} {api : Database Db} {stored : Bincode StoredEntry}
    {hinted : Bincode HintEntry} (laws : IsDatabase api) (coding : IsBincode stored)
    (hint_coding : IsBincode hinted) (key : Bytes) where
  -- A replica that has no repair is as new as the winner.
  pub not_due-StoreHolds :
      (n : Node Db) (found : Option VersionedValue) (v : VersionedValue)
      → Answers api stored key n found
      → needs_repair v.timestamp found ≡ false
      → StoreHolds laws coding hint_coding key v.data' v.timestamp n.store
  unfolding needs_repair StoreHolds
  not_due-StoreHolds n none v a h = cc
  not_due-StoreHolds n (some x) v a h =
      let seen = get-view laws coding n.store key (some x) a.1 in
      elim (Option-cases (view laws coding n.store key)) [
        | inl absent ↦ cc (rw absent at seen)
        | inr (c, there) ↦
            let same : x ≡ versioned c = cc (rw there at seen) in
            (c, there, ground (arith, h, ap (λ (y : VersionedValue). y.timestamp) same))
      ]
