-- ===== src/Store/Hints.antt =====
-- src/store/hints.rs: the store of hinted writes.
pub mod Scan
pub mod View
pub mod UnitTests
use diynamo.Base.{
  ℕ, Bytes, codes, contains, starts_with, length, drop, Result, ok, err, message, context, ◌>>=◌,
  List, [], ◌∷◌, ◌++◌, if◌then◌else◌,
}
use diynamo.Store.Database.{Database, Bincode}

-- `HintEntry`.
pub record HintEntry : Type 0 where
  pub timestamp : ℕ
  pub data' : Bytes

-- `hint_key`: the target, a slash, the key.
unfoldable pub hint_key : Bytes → Bytes → Bytes
hint_key target_id key = target_id ++ b'/' ∷ key

-- `format!("{target_id}/")`
abbrev pub hint_prefix : Bytes → Bytes
hint_prefix target_id = target_id ++ b'/' ∷ []

module _ (codec : Bincode HintEntry) where
  -- the loop of `hints_for_node`: it stops at the first key without the prefix
  unfoldable pub scan : Bytes → List (Result (Bytes × Bytes)) → Result (List (Bytes × Bytes × ℕ))
  scan prefix [] = ok []
  scan prefix (err e ∷ rest) = err (message "HintStore iterator error")
  scan prefix (ok (k, v) ∷ rest) =
      if starts_with k prefix
      then (do
        hint ← context "failed to deserialize hint entry" (codec.deserialize v)
        results ← scan prefix rest
        ok ((drop (length prefix) k, hint.data', hint.timestamp) ∷ results))
      else ok []

module _ {Db : Type 0} (api : Database Db) (codec : Bincode HintEntry) where
  -- `HintStore::store_hint`
  unfoldable pub store_hint : Db → Bytes → Bytes → Bytes → ℕ → Result Db
  store_hint db target_id key value timestamp =
      if contains target_id b'/' then err (message "target_id must not contain '/'") else do
        bytes ←
            context "failed to serialize hint entry"
              (codec.serialize (record { timestamp = timestamp; data' = value }))
        context "failed to store hint" (api.put db (hint_key target_id key) bytes)

  -- `HintStore::hints_for_node`
  unfoldable pub hints_for_node : Db → Bytes → Result (List (Bytes × Bytes × ℕ))
  unfolding scan
  hints_for_node db target_id =
      scan codec (hint_prefix target_id) (api.iterator db (hint_prefix target_id))

  -- `HintStore::delete_hint`
  unfoldable pub delete_hint : Db → Bytes → Bytes → Result Db
  delete_hint db target_id key =
      context "failed to delete hint" (api.delete db (hint_key target_id key))
