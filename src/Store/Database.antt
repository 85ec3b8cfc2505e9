-- ===== src/Store/Database.antt =====
-- The two third-party libraries under the stores, as parameters: the database (crate rocksdb) and
-- the encoding of entries (crate bincode). What the stores rely on is stated as laws of an
-- ordered map from byte strings to byte strings.
pub mod Ordered
use diynamo.Base.{Bytes, Result, ok, err, Option, List, [], ◌∷◌, ◌≡◌}
use Ordered.{Entries, lookup, insert, remove, seek, IsSorted}

-- `DB::get`, `put`, `delete` and `iterator(IteratorMode::From(key, Forward))`; the iterator from the
-- empty key is `IteratorMode::Start`. A failed write leaves the database as it was.
pub record Database (Db : Type 0) : Type 0 where
  pub get : Db → Bytes → Result (Option Bytes)
  pub put : Db → Bytes → Bytes → Result Db
  pub delete : Db → Bytes → Result Db
  pub iterator : Db → Bytes → List (Result (Bytes × Bytes))

-- An iterator yields the entries in order; after an error nothing is promised.
abbrev pub Yields : List (Result (Bytes × Bytes)) → Entries → Type 0
Yields [] [] = Unit
Yields [] (e ∷ es) = ⊥
Yields (ok e ∷ r) [] = ⊥
Yields (ok e ∷ r) (e' ∷ es) = (e ≡ e') × Yields r es
Yields (err _ ∷ r) es = Unit

pub record IsDatabase {Db : Type 0} (api : Database Db) : Type 0 where
  pub entries : Db → Entries
  pub entries_IsSorted : (db : Db) → IsSorted (entries db)
  pub get_lem :
      (db : Db) (k : Bytes) (v : Option Bytes) → api.get db k ≡ ok v → v ≡ lookup k (entries db)
  pub put_lem :
      (db : Db) (k v : Bytes) (db' : Db)
      → api.put db k v ≡ ok db'
      → entries db' ≡ insert k v (entries db)
  pub delete_lem :
      (db : Db) (k : Bytes) (db' : Db)
      → api.delete db k ≡ ok db'
      → entries db' ≡ remove k (entries db)
  pub iterator_lem : (db : Db) (k : Bytes) → Yields (api.iterator db k) (seek k (entries db))

-- `bincode::serialize` and `bincode::deserialize` at one type.
pub record Bincode (E : Type 0) : Type 0 where
  pub serialize : E → Result Bytes
  pub deserialize : Bytes → Result E

pub record IsBincode {E : Type 0} (codec : Bincode E) : Type 0 where
  pub round_trip : (e : E) (b : Bytes) → codec.serialize e ≡ ok b → codec.deserialize b ≡ ok e
