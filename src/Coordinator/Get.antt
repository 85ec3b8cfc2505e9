-- ===== src/Coordinator/Get.antt =====
-- `ReplicatedStore::get` (src/coordinator/mod.rs): parallel reads, the quorum test, and repairs.
pub mod Winner
pub mod Repairs
pub mod Quorum
use diynamo.Base.{
  ℕ, Bytes, bytes_eq, length, map, filter_map, Bool, true, false, Error, quorum_failed, Result, ok,
  err, Option, none, some, List, [], ◌∷◌, ltb, leb, if◌then◌else◌,
}
use diynamo.Base.Exec.{Exec, continue}
use diynamo.Cluster.Types.{MemberInfo, internal_base_url}
use diynamo.Cluster.Ring.{HashRing, preference_list_for_key}
use diynamo.Client.{with_http, get_internal_versioned, put_internal_versioned_bytes}
use diynamo.Store.{VersionedValue}
use diynamo.Store.Database.{Database, Bincode}
use diynamo.Store.RocksdbStore
use diynamo.Store.RocksdbStore.{StoredEntry}
use diynamo.Coordinator.{ReplicatedStore, World, JoinSet}

-- A read task's result, and a successful response: the node's URL and what it holds.
abbrev pub ReadResult : Type 0
ReadResult = Bytes × Result (Option VersionedValue)

abbrev pub ReadResponse : Type 0
ReadResponse = Bytes × Option VersionedValue

-- The loop over `join_next`: errors and panics are dropped.
unfoldable pub collect_responses : List (Option ReadResult) → List ReadResponse
collect_responses [] = []
collect_responses (some (url, ok opt) ∷ rest) = (url, opt) ∷ collect_responses rest
collect_responses (some (url, err _) ∷ rest) = collect_responses rest
collect_responses (none ∷ rest) = collect_responses rest

-- `Iterator::max_by_key(|v| v.timestamp)`: of equal maxima the last.
unfoldable pub max_by_timestamp : VersionedValue → List VersionedValue → VersionedValue
max_by_timestamp best [] = best
max_by_timestamp best (v ∷ vs) =
    max_by_timestamp (if leb best.timestamp v.timestamp then v else best) vs

-- `responses.iter().filter_map(|(_, opt)| opt.as_ref())`
unfoldable pub present : List ReadResponse → List VersionedValue
present [] = []
present ((url, none) ∷ rest) = present rest
present ((url, some v) ∷ rest) = v ∷ present rest

unfoldable pub max_of : List VersionedValue → Option VersionedValue
max_of [] = none
max_of (v ∷ vs) = some (max_by_timestamp v vs)

-- Phase 3.
unfoldable pub winner_of : List ReadResponse → Option VersionedValue
unfolding max_of
winner_of responses = max_of (present responses)

-- `needs_repair`
unfoldable pub needs_repair : ℕ → Option VersionedValue → Bool
needs_repair winner_ts none = true
needs_repair winner_ts (some v) = ltb v.timestamp winner_ts

-- A repair task: the node's URL, and the winner that is pushed to it.
abbrev pub Repair : Type 0
Repair = Bytes × VersionedValue

unfoldable pub repairs_for : VersionedValue → List ReadResponse → List Repair
repairs_for winner [] = []
repairs_for winner ((url, opt) ∷ rest) =
    let more = repairs_for winner rest in
    if needs_repair winner.timestamp opt then (url, winner) ∷ more else more

-- Phase 4: the repair tasks to spawn.
unfoldable pub spawn_repairs : Option VersionedValue → List ReadResponse → List Repair
spawn_repairs none responses = []
spawn_repairs (some winner) responses = repairs_for winner responses

-- Phases 2 to 4, on the responses.
unfoldable pub resolve_read : ℕ → List ReadResponse → Result (Option VersionedValue × List Repair)
resolve_read r responses =
    if ltb (length responses) r
    then err (quorum_failed (length responses) r)
    else ok (winner_of responses, spawn_repairs (winner_of responses) responses)

module _ {Ring Db W : Type 0} (ring_api : HashRing Ring) (world : World Db W) (api : Database Db)
    (codec : Bincode StoredEntry) (tasks : JoinSet MemberInfo ReadResult)
    (self : ReplicatedStore Ring) (key : Bytes) where
  -- the task spawned for a member
  unfoldable pub read_task : MemberInfo → Exec W (Option VersionedValue)
  read_task member w =
      if bytes_eq member.id self.self_id
      then (RocksdbStore.get api codec (world.local w) key, w)
      else get_internal_versioned world.send (with_http (internal_base_url member)) key w

  unfoldable pub run_reads : List MemberInfo → W → List ReadResult × W
  run_reads [] w = ([], w)
  run_reads (member ∷ members) w =
      let (r, w') = read_task member w in
      let (rs, w'') = run_reads members w' in ((internal_base_url member, r) ∷ rs, w'')

  unfoldable pub read_members : List MemberInfo → Exec W (Option VersionedValue × List Repair)
  read_members pref_list w =
      let (results, w') = run_reads (tasks.schedule pref_list) w in
      (resolve_read self.r (collect_responses (tasks.joined results)), w')

  -- `ReplicatedStore::get`; beside the value it returns the repair tasks that it spawns
  unfoldable pub get : Exec W (Option VersionedValue × List Repair)
  get w = continue (preference_list_for_key ring_api self.ring key self.n) read_members w

  -- a spawned repair; its result is dropped
  unfoldable pub repair : Repair → W → W
  repair (url, winner) w =
      (put_internal_versioned_bytes world.send (with_http url) key winner.data' winner.timestamp
        w).1

  -- the spawned repairs, in the order in which they act
  unfoldable pub run_repairs : List Repair → W → W
  unfolding repair
  run_repairs [] w = w
  run_repairs (task ∷ tasks') w = run_repairs tasks' (repair task w)
