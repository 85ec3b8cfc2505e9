-- ===== src/Store/Memory.antt =====
-- A database that never fails, on which the tests run.
use diynamo.Base.{ok, ok-injective, [], ◌∷◌, refl, sym, ap, map}
use diynamo.Store.Database.Ordered.{
  Entries, lookup, insert, remove, seek, IsSorted, insert-IsSorted, remove-IsSorted,
}
use diynamo.Store.Database.{Database, IsDatabase, Yields}

pub record Memory : Type 0 where
  pub items : Entries
  pub sorted : IsSorted items

abbrev pub empty : Memory
empty = record { items = []; sorted = tt }

abbrev pub memory : Database Memory
memory = record {
  get = λ db k. ok (lookup k db.items);
  put = λ db k v.
      ok (record { items = insert k v db.items; sorted = insert-IsSorted k v db.items db.sorted });
  delete = λ db k.
      ok (record { items = remove k db.items; sorted = remove-IsSorted k db.items db.sorted });
  iterator = λ db k. map ok (seek k db.items);
}

pub map-ok-Yields : (es : Entries) → Yields (map ok es) es
map-ok-Yields [] = tt
map-ok-Yields (e ∷ es) = (refl, map-ok-Yields es)

unfoldable pub memory-IsDatabase : IsDatabase memory
memory-IsDatabase = record {
  entries = λ db. db.items;
  entries_IsSorted = λ db. db.sorted;
  get_lem = λ db k v e. sym (ok-injective _ _ e);
  put_lem = λ db k v db' e. ap (λ (d : Memory). d.items) (sym (ok-injective _ _ e));
  delete_lem = λ db k db' e. ap (λ (d : Memory). d.items) (sym (ok-injective _ _ e));
  iterator_lem = λ db k. map-ok-Yields (seek k db.items);
}
