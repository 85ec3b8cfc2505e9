-- ===== src/Store/Hints/UnitTests.antt =====
-- The unit tests of src/store/hints.rs, from a store that was opened in a new directory. A test is
-- true if it passes; an error that is unwrapped fails it.
pub mod Pass
use diynamo.Base.{
  ℕ, Bytes, codes, bytes_eq, length, Bool, true, false, ◌&&◌, ◌==◌, Result, ok, err, ◌>>=◌, List,
  [], ◌∷◌, get_or,
}
use diynamo.Store.Database.{Database, Bincode}
use diynamo.Store.Hints.{HintEntry, store_hint, hints_for_node, delete_hint}

-- `unwrap` and `assert!`
abbrev pub passes : Result Bool → Bool
passes (ok b) = b
passes (err e) = false

abbrev pub Hint : Type 0
Hint = Bytes × Bytes × ℕ

-- `hints[0]`, of a list that is not empty
abbrev pub first : List Hint → Hint
first hints = get_or hints 0 ([], [], 0)

module _ {Db : Type 0} (api : Database Db) (codec : Bincode HintEntry) (store : Db) where
  unfoldable pub round_trip_single_hint : Bool
  round_trip_single_hint = passes (do
    store₁ ← store_hint api codec store (codes "n2") (codes "banana") (codes "yellow") 100
    hints ← hints_for_node api codec store₁ (codes "n2")
    ok (
        (length hints == 1)
        && bytes_eq (first hints).0 (codes "banana")
        && bytes_eq (first hints).1 (codes "yellow")
        && ((first hints).2 == 100)))

  unfoldable pub hints_for_node_only_returns_that_nodes_hints : Bool
  hints_for_node_only_returns_that_nodes_hints = passes (do
    store₁ ← store_hint api codec store (codes "n1") (codes "apple") (codes "red") 1
    store₂ ← store_hint api codec store₁ (codes "n2") (codes "banana") (codes "yellow") 2
    store₃ ← store_hint api codec store₂ (codes "n2") (codes "cherry") (codes "red") 3
    n1_hints ← hints_for_node api codec store₃ (codes "n1")
    n2_hints ← hints_for_node api codec store₃ (codes "n2")
    ok (
        (length n1_hints == 1)
        && bytes_eq (first n1_hints).0 (codes "apple")
        && (length n2_hints == 2)))

  unfoldable pub delete_hint_removes_entry : Bool
  delete_hint_removes_entry = passes (do
    store₁ ← store_hint api codec store (codes "n2") (codes "banana") (codes "yellow") 42
    store₂ ← delete_hint api codec store₁ (codes "n2") (codes "banana")
    hints ← hints_for_node api codec store₂ (codes "n2")
    ok (length hints == 0))

  abbrev is_err : Result Db → Bool
  is_err (ok s) = false
  is_err (err e) = true

  unfoldable pub store_hint_rejects_slash_in_target_id : Bool
  store_hint_rejects_slash_in_target_id =
      is_err (store_hint api codec store (codes "n1/evil") (codes "key") (codes "val") 0)

  unfoldable pub hints_for_node_empty_when_none_stored : Bool
  hints_for_node_empty_when_none_stored =
      passes (do hints ← hints_for_node api codec store (codes "n99"); ok (length hints == 0))
