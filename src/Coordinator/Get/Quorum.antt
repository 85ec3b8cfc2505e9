-- ===== src/Coordinator/Get/Quorum.antt =====
-- How recent the responses of `ReplicatedStore::get` (src/coordinator/mod.rs) are, against what the
-- members hold.
use diynamo.Base.{
  ℕ, ◌+◌, ◌≤◌, ◌<◌, Bytes, length, Bool, true, false, not, Result, ok, ok-injective, err, Option,
  Option-cases, none, some, List, [], ◌∷◌, ◌≡◌, ◌⊎◌, ◌∙◌, refl, sym, ap, arith, leb, leb→le, ltb,
  In, All, Bool-cases, inl, inr,
}
use diynamo.Base.Bags.{count, count-not}
use diynamo.Cluster.Types.{MemberInfo}
use diynamo.Cluster.Ring.{HashRing}
use diynamo.Store.{VersionedValue}
use diynamo.Store.Database.{Database, Bincode}
use diynamo.Store.RocksdbStore.{StoredEntry}
use diynamo.Coordinator.{ReplicatedStore, World, JoinSet}
use diynamo.Coordinator.Put.Results.{joined_results, IsJoinSet, AllGood, AllGood-cons, members-good}
use diynamo.Coordinator.Get.{
  ReadResult, ReadResponse, Repair, collect_responses, winner_of, resolve_read, read_task,
  run_reads, read_members,
}
use diynamo.Coordinator.Get.Winner.{winner_of-newest, winner_of-none_iff}

-- A value at least as new as the timestamp.
unfoldable pub is_recent : ℕ → Option VersionedValue → Bool
is_recent ts none = false
is_recent ts (some v) = leb ts v.timestamp

-- An answer that is not.
unfoldable pub is_stale_answer : ℕ → Result (Option VersionedValue) → Bool
is_stale_answer ts (ok opt) = not (is_recent ts opt)
is_stale_answer ts (err e) = false

abbrev stale_result : ℕ → ReadResult → Bool
stale_result ts r = is_stale_answer ts r.1

-- A response that is recent enough.
abbrev HasRecent : ℕ → List ReadResponse → Type 0
HasRecent ts responses =
    (url : Bytes) × (v : VersionedValue) × In {A = ReadResponse} (url, some v) responses
    × (ts ≤ v.timestamp)

HasRecent-later :
    (ts : ℕ) (r : ReadResponse) (rest : List ReadResponse)
    → HasRecent ts rest
    → HasRecent ts (r ∷ rest)
HasRecent-later ts r rest (url, v, i, le) = (url, v, inr i, le)

stale_or_recent :
    (ts : ℕ) (rs : List (Option ReadResult))
    → (length (collect_responses rs) ≤ count (stale_result ts) (joined_results rs))
      ⊎ HasRecent ts (collect_responses rs)
unfolding collect_responses joined_results count is_stale_answer is_recent
stale_or_recent ts [] = inl (omega arith)
stale_or_recent ts (none ∷ rs) = stale_or_recent ts rs
stale_or_recent ts (some (url, err e) ∷ rs) = stale_or_recent ts rs
stale_or_recent ts (some (url, ok none) ∷ rs) = elim (stale_or_recent ts rs) [
  | inl stale ↦ inl (omega (arith, stale))
  | inr recent ↦ inr (HasRecent-later ts (url, none) (collect_responses rs) recent)
]
stale_or_recent ts (some (url, ok (some v)) ∷ rs) = elim (Bool-cases (leb ts v.timestamp)) [
  | inl new ↦ inr (url, v, inl refl, leb→le ts v.timestamp new)
  | inr old ↦ elim (stale_or_recent ts rs) [
    | inl stale ↦ inl (rw old (omega (arith, stale)))
    | inr recent ↦ inr (HasRecent-later ts (url, some v) (collect_responses rs) recent)
  ]
]

winner_recent :
    (ts : ℕ) (responses : List ReadResponse)
    → HasRecent ts responses
    → (v : VersionedValue) × (winner_of responses ≡ some v) × (ts ≤ v.timestamp)
winner_recent ts responses (url, v, i, le) = elim (Option-cases (winner_of responses)) [
  | inl n ↦ absurd ((winner_of-none_iff responses).0 n url v i)
  | inr (winner, e) ↦
      (winner, e, omega (arith, (winner_of-newest responses winner e).1 url v i, le))
]

module _ {Ring Db W : Type 0} (ring_api : HashRing Ring) (world : World Db W) (api : Database Db)
    (codec : Bincode StoredEntry) (tasks : JoinSet MemberInfo ReadResult)
    (self : ReplicatedStore Ring) (key : Bytes) (ts : ℕ) (good current : MemberInfo → Bool)
    (Frozen : W → Type 0) where
  -- What the read of one replica does: it keeps what the reads rely on, and a replica that is current
  -- does not answer with less.
  pub record IsFaithful : Type 0 where
    pub keep :
        (m : MemberInfo) (w : W)
        → Frozen w
        → Frozen (read_task ring_api world api codec tasks self key m w).1
    pub answers :
        (m : MemberInfo) (w : W)
        → Frozen w
        → good m ≡ true
        → current m ≡ true
        → is_stale_answer ts (read_task ring_api world api codec tasks self key m w).0 ≡ false

module _ {Ring Db W : Type 0} {ring_api : HashRing Ring} {world : World Db W} {api : Database Db}
    {codec : Bincode StoredEntry} {tasks : JoinSet MemberInfo ReadResult}
    {self : ReplicatedStore Ring} {key : Bytes} {ts : ℕ} {good current : MemberInfo → Bool}
    {Frozen : W → Type 0}
    (h : IsFaithful ring_api world api codec tasks self key ts good current Frozen) where
  -- A stale answer comes from a member that is not current.
  run_reads-stale :
      (ms : List MemberInfo) (w : W)
      → Frozen w
      → AllGood good ms
      → count (stale_result ts) (run_reads ring_api world api codec tasks self key ms w).0
        ≤ count (λ m. not (current m)) ms
  unfolding run_reads count
  run_reads-stale [] w f g = omega arith
  run_reads-stale (m ∷ ms) w f g =
      let (good_m, g') = AllGood-cons good m ms g in
      let rest =
        run_reads-stale ms (read_task ring_api world api codec tasks self key m w).1 (h.keep m w f)
          g' in
      elim (Bool-cases (current m)) [
        | inl yes' ↦ rw (yes', h.answers m w f good_m yes') rest
        | inr no' ↦ rw no' (ground (arith, rest))
      ]

  -- If more than `n - r` of the members read are current, a read that succeeds finds a value that is
  -- recent enough.
  pub read_members-recent :
      IsJoinSet tasks
      → (ms : List MemberInfo) (w : W) (found : Option VersionedValue) (repairs : List Repair)
      → Frozen w
      → All (λ m. good m ≡ true) ms
      → length ms < count current ms + self.r
      → (read_members ring_api world api codec tasks self key ms w).0 ≡ ok (found, repairs)
      → (v : VersionedValue) × (found ≡ some v) × (ts ≤ v.timestamp)
  unfolding read_members resolve_read
  read_members-recent joining ms w found repairs f g enough e =
      let results = (run_reads ring_api world api codec tasks self key (tasks.schedule ms) w).0 in
      let responses = collect_responses (tasks.joined results) in
      let unfit = λ (m : MemberInfo). not (good m) in
      let old = λ (m : MemberInfo). not (current m) in
      let fit : count unfit (tasks.schedule ms) ≡ 0 =
        omega (arith, joining.schedule_lem ms unfit, members-good good ms g) in
      let stale = run_reads-stale (tasks.schedule ms) w f fit in
      elim (Bool-cases (ltb (length responses) self.r)) [
        | inl few ↦ cc (rw few at e)
        | inr many ↦
            let same : winner_of responses ≡ found =
              ap (λ (x : Option VersionedValue × List Repair). x.0)
                (ok-injective _ _ (rw many at e)) in
            elim (stale_or_recent ts (tasks.joined results)) [
              | inl all_stale ↦ absurd (
                  ground (
                    arith,
                    many,
                    all_stale,
                    enough,
                    stale,
                    joining.joined_lem results (stale_result ts),
                    joining.schedule_lem ms old,
                    count-not current ms,
                  ))
              | inr recent ↦
                  let (v, won, le) = winner_recent ts responses recent in (v, sym same ∙ won, le)
            ]
      ]
