-- ===== src/Harness/Recovery.antt =====
-- What a node of the harness is after a recovery from data loss (src/test_support/mod.rs).
use diynamo.Base.{
  ℕ, suc, ◌+◌, ◌≤◌, Bytes, Bool, true, false, Error, Result, ok, err, none, some, ◌≡◌, inl, inr,
  refl, arith, Result-cases,
}
use diynamo.Base.Exec.{Exec, ◌>>=◌}
use diynamo.Config.{SocketAddr}
use diynamo.Cluster.Membership.{GossipNode, Memberlist}
use diynamo.Cluster.Membership as Membership
use diynamo.Server.{FaultFlags}
use diynamo.Server as Server
use diynamo.Store.Database.{Database, IsDatabase, Bincode, IsBincode}
use diynamo.Store.RocksdbStore.{StoredEntry, clear_all}
use diynamo.Store.RocksdbStore.Lww.{view}
use diynamo.Store.RocksdbStore.Clear.{view-clear_all}
use diynamo.Harness.{Time, IsTime}
use diynamo.Harness.Loops.{poll_loop-Ends}
use diynamo.Harness.Nodes.{
  TestNode, rejoin, recover_http, restart_gossip_with_uuid, restart_gossip, reopen, wipe_local_data,
  peer_sees_node, wait_gone, is_gone, recover_after_data_loss,
}

module _ {Handle Events Db W : Type 0} (memberlist : Memberlist Handle Events W) (time : Time W)
    (in_use : Error → Bool) (new_v4 : W → Bytes × W) {api : Database Db}
    {codec : Bincode StoredEntry} (laws : IsDatabase api) (coding : IsBincode codec)
    (served : Db → W → Db) where
  -- The store is what the server has made of an empty one, and the requests of clients and peers are
  -- let in.
  pub record IsFresh (n : TestNode Handle Events Db) : Type 0 where
    pub emptied : Db
    pub no_entry : (j : Bytes) → view laws coding emptied j ≡ none
    pub opened : W
    pub since_opened : n.local ≡ served emptied opened
    pub internal_open : n.faults.block_internal ≡ false
    pub public_open : n.faults.block_public ≡ false

  -- wiping, rejoining and reopening
  abbrev return_fresh : SocketAddr → Exec (TestNode Handle Events Db × W) (Unit {0})
  return_fresh seed = wipe_local_data memberlist time in_use new_v4 api codec >>= (λ wiped.
      restart_gossip memberlist time in_use new_v4 api codec seed
      >>= (λ done. reopen memberlist time in_use new_v4 api codec served))

  return-IsFresh :
      (seed : SocketAddr) (n : TestNode Handle Events Db) (w : W)
      → (return_fresh seed (n, w)).0 ≡ ok tt
      → IsFresh (return_fresh seed (n, w)).1.0
  unfolding wipe_local_data restart_gossip restart_gossip_with_uuid reopen recover_http
      Server.recover_http Server.block_internal Server.block_public
  return-IsFresh seed n w h =
      let wiped = record n { local = (clear_all api codec n.local).1 } in
      let (uuid, w') = new_v4 w in
      elim (Result-cases (clear_all api codec n.local).0) [
        | inr (x, e) ↦ cc (rw e at h)
        | inl (u, e) ↦
            elim (Result-cases
              (rejoin memberlist time in_use new_v4 api codec seed uuid wiped w').0) [
                | inr (x, f) ↦ cc (rw (e, f) at h)
                | inl (gossip, f) ↦
                    rw (e, f)
                      (record {
                        emptied = wiped.local;
                        opened =
                            (rejoin memberlist time in_use new_v4 api codec seed uuid wiped w').1;
                        since_opened = refl;
                        no_entry = λ j. view-clear_all laws coding n.local j e;
                        internal_open = refl;
                        public_open = refl;
                      })
              ]
      ]

  -- `recover_after_data_loss` ends, if neither sleeping nor a query of the gossip library sets the clock
  -- back: one round of its wait for each millisecond of the time it may wait, and one more, are enough.
  -- If it succeeds on a node that blocked them, the internal and public requests are let in, and its store is what the
  -- server has made, since the requests were let in, of a store that has no entry at any key.
  pub recover_after_data_loss-IsFresh :
      IsTime time
      → ((g : GossipNode Handle Events) (w : W)
          → time.now w ≤ time.now (Membership.online_members memberlist g w).1)
      → (seed : SocketAddr) (observer n : TestNode Handle Events Db) (timeout : ℕ) (w : W)
      → n.faults.block_internal ≡ true
      → n.faults.block_public ≡ true
      → (r : Result (Unit {0}) × (TestNode Handle Events Db × W)) × (recover_after_data_loss
            memberlist time in_use new_v4 api codec served
            (suc timeout)
            seed
            observer
            timeout
            (n, w)
          ≡ some r)
        × (r.0 ≡ ok tt → IsFresh r.1.0)
  unfolding recover_after_data_loss wait_gone is_gone peer_sees_node
  recover_after_data_loss-IsFresh law onward seed observer n timeout w internal public =
      let (w', ended) =
        poll_loop-Ends time law (time.now w + timeout) 200
          (is_gone memberlist time in_use new_v4 api codec observer n.id) (omega arith)
          (λ v. onward observer.gossip v) timeout w (omega arith) in
      elim ended [
        | inl (e, met) ↦ rw e (return_fresh seed (n, w'), refl, return-IsFresh seed n w')
        | inr (x, e, late, unmet) ↦ rw e ((err x, (n, w')), refl, λ h. cc)
      ]
