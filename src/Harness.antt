-- ===== src/Harness.antt =====
-- src/test_support/mod.rs: the test harness. Durations and times are in milliseconds. What tokio, the
-- operating system and crate uuid contribute is a parameter.
pub mod Loops
pub mod Retries
pub mod Nodes
pub mod Spawn
pub mod Recovery
use diynamo.Base.{
  ℕ, zero, suc, ◌+◌, ◌*◌, ◌≤◌, Bytes, bytes_eq, Bool, true, false, not, ◌||◌, Error, message,
  panicked, Result, ok, err, context, Option, none, some, List, [], ◌∷◌, length, leb, ltb,
  if◌then◌else◌,
}
use diynamo.Base.Exec.{Exec, ◌>>=◌, lift}
use diynamo.Config.{SocketAddr}
use diynamo.Cluster.Types.{MemberInfo}
use diynamo.Cluster.Delegate.{NodeMeta}
use diynamo.Cluster.Membership.{GossipNode, Memberlist}
use diynamo.Cluster.Membership
use diynamo.Server.{FaultFlags}
use diynamo.Server
use diynamo.Store.Database.{Database}
use diynamo.Store.RocksdbStore.{clear_all}

-- `tokio::time`: the clock, and a sleep of that many milliseconds.
pub record Time (W : Type 0) : Type 0 where
  pub now : W → ℕ
  pub sleep : ℕ → W → W

-- A sleep lasts at least as long as it is asked to.
pub record IsTime {W : Type 0} (time : Time W) : Type 0 where
  pub sleep_lem : (d : ℕ) (w : W) → time.now w + d ≤ time.now (time.sleep d w)

-- A loop that may run out of fuel.
abbrev pub Looping : Type 0 → Type 0 → Type 0
Looping W A = W → Option (Result A × W)

-- Goes on behind a loop that has ended.
abbrev pub after : {W A B : Type 0} → Option (Result A × W) → Exec W B → Option (Result B × W)
after none rest = none
after (some (err e, w)) rest = some (err e, w)
after (some (ok a, w)) rest = some (rest w)

module _ {W : Type 0} (time : Time W) where
  -- `loop { if condition().await { return Ok(()) } if Instant::now() >= deadline { bail!(..) } sleep }`
  unfoldable pub poll_loop : ℕ → ℕ → ℕ → (W → Bool × W) → Looping W (Unit {0})
  poll_loop zero deadline interval condition w = none
  poll_loop (suc fuel) deadline interval condition w =
      let (done, w') = condition w in
      let next = poll_loop fuel deadline interval condition (time.sleep interval w') in
      if done
      then some (ok tt, w')
      else if leb deadline (time.now w')
      then some (err (message "timed out"), w')
      else next

  -- `poll_until`
  unfoldable pub poll_until : ℕ → ℕ → ℕ → (W → Bool × W) → Looping W (Unit {0})
  poll_until fuel timeout interval condition w =
      poll_loop fuel (time.now w + timeout) interval condition w

  -- Does every node see at least `expected` members? The first that does not ends the round.
  unfoldable pub all_online :
      {N : Type 0} → (N → W → List MemberInfo × W) → ℕ → List N → W → Bool × W
  all_online online expected [] w = (true, w)
  all_online online expected (node ∷ nodes) w =
      let (members, w') = online node w in
      let rest = all_online online expected nodes w' in
      if ltb (length members) expected then (false, w') else rest

  -- `wait_for_cluster`: 10 s, every 100 ms, and 200 ms more.
  unfoldable pub wait_for_cluster :
      {N : Type 0} → ℕ → (N → W → List MemberInfo × W) → List N → ℕ → Looping W (Unit {0})
  unfolding all_online
  wait_for_cluster fuel online nodes expected w =
      after (poll_loop fuel (time.now w + 10000) 100 (all_online online expected nodes) w)
        (λ w'. (ok tt, time.sleep 200 w'))

  -- What `TcpListener::bind` of a free port gives: an address, or an error; EADDRINUSE is retried.
  module _ (bind : Exec W SocketAddr) (in_use : Error → Bool) where
    -- The attempts from `attempt` on; so many are left.
    unfoldable pub reserve_from : ℕ → ℕ → Exec W SocketAddr
    reserve_from zero attempt w = (err (message "could not reserve gossip port after retries"), w)
    reserve_from (suc left) attempt w =
        let (r, w') = bind w in
        let again = reserve_from left (suc attempt) (time.sleep (50 * suc attempt) w') in
        elim r [
          | ok addr ↦ (ok addr, if ltb 0 attempt then time.sleep (50 * attempt) w' else w')
          | err e ↦ if in_use e then again else (err (message "bind gossip"), w')
        ]

    -- `reserve_gossip_addr`: eight attempts
    unfoldable pub reserve_gossip_addr : Exec W SocketAddr
    unfolding reserve_from
    reserve_gossip_addr = reserve_from 8 0

  -- `last_err.unwrap()`
  abbrev pub unwrap_err : {A : Type 0} → Option Error → Result A
  unwrap_err none = err (panicked "called `Option::unwrap()` on a `None` value")
  unwrap_err (some e) = err e

  -- The attempts from `attempt` on to start a gossip node; `in_use` tells from the text of an error whether
  -- the address is in use.
  unfoldable pub start_from :
      {G : Type 0} → (Error → Bool) → Exec W G → ℕ → ℕ → Option Error → Exec W G
  start_from in_use start zero attempt last_err w = (unwrap_err last_err, w)
  start_from in_use start (suc left) attempt last_err w =
      let (r, w') = start w in
      elim r [
        | ok node ↦ (ok node, w')
        | err e ↦
            let again =
              start_from in_use start left (suc attempt) (some e)
                (time.sleep (100 * suc attempt) w') in
            if in_use e then again else (unwrap_err (some e), w')
      ]

  -- `start_gossip_with_retry`: five attempts
  unfoldable pub start_gossip_with_retry : {G : Type 0} → (Error → Bool) → Exec W G → Exec W G
  unfolding start_from
  start_gossip_with_retry in_use start = start_from in_use start 5 0 none
