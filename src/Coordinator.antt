-- ===== src/Coordinator.antt =====
-- src/coordinator/mod.rs: quorum writes and reads over the ring.
pub mod Put
pub mod Get
pub mod Handoff
pub mod Create
use diynamo.Base.{ℕ, Bytes, List, Option}
use diynamo.Base.Exec.{Exec}
use diynamo.Api.{Request, Response}
use diynamo.Cluster.Ring.{CoordinatorRing}

-- `ReplicatedStore`, less its shared handles: those are in the world.
pub record ReplicatedStore (Ring : Type 0) : Type 0 where
  pub self_id : Bytes
  pub ring : CoordinatorRing Ring
  pub n : ℕ
  pub w : ℕ
  pub r : ℕ

-- What a coordinator acts on: the network, its own local store, and its clock.
pub record World (Db W : Type 0) : Type 0 where
  pub send : Request → Exec W Response
  pub local : W → Db
  pub set_local : Db → W → W
  pub now_millis : W → ℕ × W

-- `tokio::task::JoinSet`: the order in which the spawned tasks act, and the results in the order in
-- which `join_next` gives them, `none` for a task that panicked.
pub record JoinSet (T R : Type 0) : Type 0 where
  pub schedule : List T → List T
  pub joined : List R → List (Option R)
