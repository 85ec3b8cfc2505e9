-- ===== src/Tests/Recoveries.antt =====
-- Runs of the harness on a clock that only sleeping moves.
use diynamo.Base.{
  refl, ℕ, ◌+◌, codes, replicate, Bool, false, Result, ok, some, [], ◌∷◌, ◌≡◌, arith, leb,
}
use diynamo.Cluster.Membership.{online_members}
use diynamo.Store.Memory.{Memory, memory, memory-IsDatabase}
use diynamo.Server.{no_faults, kill_http}
use diynamo.Harness.{Time, IsTime, poll_until}
use diynamo.Harness.Loops.{Ends, poll_until-Ends}
use diynamo.Harness.Nodes.{TestNode, recover_after_data_loss}
use diynamo.Harness.Recovery.{IsFresh, recover_after_data_loss-IsFresh}
use diynamo.Tests.Fixtures.{stored_codec, stored_codec-IsBincode}
use diynamo.Tests.Gossip.{addr, node, one_seed}

abbrev time : Time ℕ
time = record { now = λ w. w; sleep = λ d w. w + d }

time-IsTime : IsTime time
time-IsTime = record { sleep_lem = λ d w. omega arith }

-- The condition holds from the 250th millisecond on.
abbrev late : ℕ → Bool × ℕ
late w = (leb 250 w, w)

poll_until-Ends_example : Ends time 300 late (poll_until time 301 300 100 late 0)
poll_until-Ends_example =
    poll_until-Ends time time-IsTime 300 100 late 0 (omega arith) (λ w. omega arith)

abbrev one_entry : Memory
one_entry = record { items = (codes "k", 5 ∷ codes "y") ∷ []; sorted = (tt, tt) }

abbrev dead : TestNode ℕ ℕ Memory
dead = record {
  id = codes "b";
  http_port = 2;
  gossip_addr = addr;
  faults = kill_http no_faults;
  local = one_entry;
  gossip = node;
}

abbrev observer : TestNode ℕ ℕ Memory
observer = record dead { id = codes "a" }

recover_after_data_loss-IsFresh_example :
    (r : Result (Unit {0}) × (TestNode ℕ ℕ Memory × ℕ)) × (recover_after_data_loss one_seed time
        (λ e. false)
        (λ w. (replicate 16 9, w))
        memory
        stored_codec
        (λ db w. db)
        1001
        addr
        observer
        1000
        (dead, 0)
      ≡ some r)
    × (r.0 ≡ ok tt
        → IsFresh one_seed time
            (λ e. false)
            (λ w. (replicate 16 9, w))
            memory-IsDatabase
            stored_codec-IsBincode
            (λ db w. db)
            r.1.0)
unfolding online_members kill_http
recover_after_data_loss-IsFresh_example =
    recover_after_data_loss-IsFresh one_seed time (λ e. false) (λ w. (replicate 16 9, w))
      memory-IsDatabase stored_codec-IsBincode (λ db w. db) time-IsTime (λ g w. omega arith) addr
      observer dead 1000 0 refl refl
