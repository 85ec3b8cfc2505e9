-- ===== src/Tests/Fixtures.antt =====
-- Encodings, a hash ring, a join set and members for the runs at concrete inputs.
use mathlib.Core.List.Permᴰ
use diynamo.Base.{
  ℕ, Bytes, codes, Result, ok, ok-injective, err, message, List, [], ◌∷◌, ◌++◌, map, refl, In, All,
  inl, inr, replicate,
}
use diynamo.Config.{ClusterMember}
use diynamo.Cluster.Types.{MemberInfo}
use diynamo.Cluster.Ring.{HashRing, IsHashRing, CoordinatorRing}
use diynamo.Store.Database.{Bincode, IsBincode}
use diynamo.Store.RocksdbStore.{StoredEntry}
use diynamo.Store.Hints.{HintEntry}
use diynamo.Store.Memory.{Memory}

-- The timestamp, then the data.
abbrev decode_stored : Bytes → Result StoredEntry
decode_stored [] = err (message "empty")
decode_stored (t ∷ s) = ok (record { timestamp = t; data' = s })

abbrev pub stored_codec : Bincode StoredEntry
stored_codec = record { serialize = λ e. ok (e.timestamp ∷ e.data'); deserialize = decode_stored }

pub stored_codec-IsBincode : IsBincode stored_codec
stored_codec-IsBincode = record { round_trip = λ e b h. rw (← ok-injective _ _ h) refl }

abbrev decode_hint : Bytes → Result HintEntry
decode_hint [] = err (message "empty")
decode_hint (t ∷ s) = ok (record { timestamp = t; data' = s })

abbrev pub hint_codec : Bincode HintEntry
hint_codec = record { serialize = λ e. ok (e.timestamp ∷ e.data'); deserialize = decode_hint }

pub hint_codec-IsBincode : IsBincode hint_codec
hint_codec-IsBincode = record { round_trip = λ e b h. rw (← ok-injective _ _ h) refl }

-- The database that a write leaves.
abbrev pub database_or : Memory → Result Memory → Memory
database_or db (ok db') = db'
database_or db (err e) = db

-- A hash ring that gives every key all nodes, in the order in which they were added.
abbrev pub listed : HashRing (List Bytes)
listed = record {
  key_order = λ ids. ids;
  new = λ replicas vnodes. [];
  batch_add = λ ring ids. ring ++ ids;
  get_owners = λ ring key. ring;
}

All-subset : (xs ys : List Bytes) → ((x : Bytes) → In x ys → In x xs) → All (λ y. In y xs) ys
All-subset xs [] f = tt
All-subset xs (y ∷ ys) f = (f y (inl refl), All-subset xs ys (λ x i. f x (inr i)))

pub listed-IsHashRing : IsHashRing listed
listed-IsHashRing = record {
  key_order-perm = Permᴰ.refl;
  owners_Distinct = λ replicas vnodes ids key d. d;
  owners_In = λ replicas vnodes ids key. All-subset ids ids (λ x i. i);
  owners_length = λ replicas vnodes ids key p d l. refl;
}

abbrev entry : Bytes → ℕ → ClusterMember
entry id port = record {
  id = id;
  gossip_addr = record { ip = codes "h"; port = port };
  forward_port = port;
}

-- Three nodes on one host.
abbrev pub roster : List ClusterMember
roster = entry (codes "a") 1 ∷ entry (codes "b") 2 ∷ entry (codes "c") 3 ∷ []

abbrev pub member : Bytes → ℕ → MemberInfo
member id port = record {
  id = id;
  gossip_addr = record { ip = codes "h"; port = port };
  forward_port = port;
  uuid = replicate 16 0;
}

abbrev pub members : List MemberInfo
members = member (codes "a") 1 ∷ member (codes "b") 2 ∷ member (codes "c") 3 ∷ []

abbrev pub ids : List Bytes
ids = codes "a" ∷ codes "b" ∷ codes "c" ∷ []

abbrev pub ring_of : ℕ → CoordinatorRing (List Bytes)
ring_of n = record { members_by_id = map (λ m. (m.id, m)) members; ring = ids; n = n }
