-- ===== src/Network/Holds/Replicas.antt =====
-- The handlers that a coordinator writes to (src/server/mod.rs), as calls that keep and gain a write.
use diynamo.Base.{ℕ, Bytes, Bool, ◌≡◌, ◌⊎◌, inl, inr, refl, arith}
use diynamo.Server.{Handled, answered, failed, put_kv_internal_versioned, put_hint_internal}
use diynamo.Store.Database.{Database, IsDatabase, Bincode, IsBincode}
use diynamo.Store.RocksdbStore.{StoredEntry}
use diynamo.Store.Hints.{HintEntry}
use diynamo.Network.{Transport, IsTransport, put_versioned, put_hint, dispatch, status_response}
use diynamo.Network.Holds.{
  NodeHolds, body, put_versioned-holds, put_versioned-failed, put_hint-failed,
  NodeHolds-put_versioned, put_hint-holds, NodeHolds-put_hint,
}
use diynamo.Network.Holds.{InStore, StoreHolds-put_versioned, put_versioned-stores}
use diynamo.Network.Holds.Sent.{IsReplica}

Handled-cases : (h : Handled ℕ) → ((s : ℕ) × (h ≡ answered s)) ⊎ ((s : ℕ) × (h ≡ failed s))
Handled-cases (answered s) = inl (s, refl)
Handled-cases (failed s) = inr (s, refl)

module _ {Db : Type 0} {t : Transport} {is_plain : Bytes → Bool} (routing : IsTransport t is_plain)
    {api : Database Db} {stored : Bincode StoredEntry} {hinted : Bincode HintEntry}
    (laws : IsDatabase api) (coding : IsBincode stored) (hint_coding : IsBincode hinted)
    (key value : Bytes) (ts : ℕ) where
  pub put_versioned-IsReplica :
      IsReplica routing api stored hinted
        (NodeHolds laws coding hint_coding key value ts)
        (put_versioned key (body value ts))
  unfolding dispatch status_response
  put_versioned-IsReplica = record {
    keeps = λ now n h. NodeHolds-put_versioned laws coding hint_coding key value ts n h;
    gains = λ now n e.
        elim (Handled-cases (put_kv_internal_versioned api stored hinted key (body value ts) n).0) [
          | inl (s, a) ↦ put_versioned-holds laws coding hint_coding key value ts n s a
          | inr (s, a) ↦ absurd (
              ground (arith, a, e, put_versioned-failed laws coding hint_coding key value ts n s a))
        ];
  }

  pub put_hint-IsReplica :
      (target_id : Bytes)
      → IsReplica routing api stored hinted
          (NodeHolds laws coding hint_coding key value ts)
          (put_hint target_id key (body value ts))
  unfolding dispatch status_response
  put_hint-IsReplica target_id = record {
    keeps = λ now n h. NodeHolds-put_hint laws coding hint_coding key value ts n target_id h;
    gains = λ now n e.
        elim (Handled-cases
          (put_hint_internal api stored hinted target_id key (body value ts) n).0) [
            | inl (s, a) ↦ put_hint-holds laws coding hint_coding key value ts n target_id s a
            | inr (s, a) ↦ absurd (
                ground (
                  arith,
                  a,
                  e,
                  put_hint-failed laws coding hint_coding key value ts n target_id s a,
                ))
          ];
  }

  -- The local stores alone.
  pub put_versioned-InStore :
      IsReplica routing api stored hinted
        (InStore laws coding hint_coding key value ts)
        (put_versioned key (body value ts))
  unfolding dispatch status_response
  put_versioned-InStore = record {
    keeps = λ now n h. StoreHolds-put_versioned laws coding hint_coding key value ts n h;
    gains = λ now n e.
        elim (Handled-cases (put_kv_internal_versioned api stored hinted key (body value ts) n).0) [
          | inl (s, a) ↦ put_versioned-stores laws coding hint_coding key value ts n s a
          | inr (s, a) ↦ absurd (
              ground (arith, a, e, put_versioned-failed laws coding hint_coding key value ts n s a))
        ];
  }
