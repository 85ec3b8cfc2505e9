-- ===== src/Tests/Stores.antt =====
-- Runs of the two stores.
use diynamo.Base.{
  ℕ, Result, ok, Bytes, codes, Option, none, some, List, [], ◌∷◌, ◌≡◌, refl, arith, bytes_eq,
  lex_lt, starts_with, contains, ◌↔◌, In,
}
use diynamo.Store.Database.Ordered.{lookup, insert, remove, seek}
use diynamo.Store.Memory.{Memory, empty, memory, memory-IsDatabase}
use mathlib.Core.Option
use diynamo.Store.{VersionedValue}
use diynamo.Store.RocksdbStore.{StoredEntry, put_if_newer, versioned, iter_all}
use diynamo.Store.RocksdbStore.Lww.{newer, decoded, view, view-put_if_newer}
use diynamo.Store.RocksdbStore.Listing.{iter_all_exact}
use diynamo.Store.RocksdbStore.Convergence.{deliver, replicas_converge}
use diynamo.Store.Hints.{HintEntry, hint_key, store_hint, scan, hints_for_node, delete_hint}
use diynamo.Store.Hints.View.{
  hint_view, hints_for_node_exact, hint_view-store_hint, hint_view-delete_hint,
}
use diynamo.Tests.Fixtures.{
  stored_codec, stored_codec-IsBincode, hint_codec, hint_codec-IsBincode, database_or,
}

abbrev key : Bytes
key = codes "k"

abbrev old : StoredEntry
old = record { timestamp = 1; data' = codes "x" }

abbrev new : StoredEntry
new = record { timestamp = 2; data' = codes "y" }

abbrev delivered : List StoredEntry → Memory
delivered ws = database_or empty (deliver memory stored_codec empty key ws)

-- The view of a replica of the key.
abbrev held : Memory → Bytes → Option StoredEntry
held db j = view memory-IsDatabase stored_codec-IsBincode db j

replicas_converge_example :
    held (delivered (old ∷ new ∷ [])) key ≡ held (delivered (new ∷ old ∷ new ∷ [])) key
unfolding deliver put_if_newer view decoded memory-IsDatabase lookup insert bytes_eq lex_lt
replicas_converge_example =
    replicas_converge memory-IsDatabase stored_codec-IsBincode empty empty key (old ∷ new ∷ [])
      (new ∷ old ∷ new ∷ []) (delivered (old ∷ new ∷ [])) (delivered (new ∷ old ∷ new ∷ [])) refl
      refl (λ e m. ground arith) (λ e m. ground arith) (λ a b i j h. ground arith)

abbrev once : Memory
once = database_or empty (put_if_newer memory stored_codec empty key (codes "y") 2)

view-put_if_newer_example : held once key ≡ some new
unfolding put_if_newer view decoded newer memory-IsDatabase lookup insert bytes_eq lex_lt
view-put_if_newer_example =
    view-put_if_newer memory-IsDatabase stored_codec-IsBincode empty key (codes "y") 2 once key refl

abbrev shown : VersionedValue
shown = record { timestamp = 2; data' = codes "y" }

iter_all_exact_example :
    In {A = Result (Bytes × VersionedValue)} (ok (key, shown)) (ok (key, shown) ∷ [])
    ↔ (Option.map versioned (held once key) ≡ some shown)
unfolding iter_all put_if_newer seek memory-IsDatabase lookup insert bytes_eq lex_lt
iter_all_exact_example = iter_all_exact memory-IsDatabase stored_codec-IsBincode once key shown tt

abbrev target : Bytes
target = codes "a"

abbrev kept : Memory
kept = database_or empty (store_hint memory hint_codec empty target key (codes "y") 2)

abbrev cleared : Memory
cleared = database_or empty (delete_hint memory hint_codec kept target key)

abbrev hinted : Memory → Bytes → Bytes → Option HintEntry
hinted db t j = hint_view hint_codec memory-IsDatabase db t j

hints_for_node_exact_example :
    In {A = Bytes × Bytes × ℕ} (key, codes "y", 2) ((key, codes "y", 2) ∷ [])
    ↔ (hinted kept target key ≡ some (record { timestamp = 2; data' = codes "y" }))
unfolding hints_for_node seek starts_with scan store_hint contains hint_key memory-IsDatabase lookup
    insert bytes_eq lex_lt
hints_for_node_exact_example =
    hints_for_node_exact hint_codec memory-IsDatabase kept target ((key, codes "y", 2) ∷ []) key
      (codes "y") 2 refl

hint_view-store_hint_example :
    hinted kept target key ≡ some (record { timestamp = 2; data' = codes "y" })
unfolding store_hint contains hint_key memory-IsDatabase lookup insert bytes_eq lex_lt
hint_view-store_hint_example =
    hint_view-store_hint hint_codec memory-IsDatabase hint_codec-IsBincode empty target key
      (codes "y") 2 kept target key refl refl

hint_view-delete_hint_example : hinted cleared target key ≡ none
unfolding store_hint contains delete_hint hint_key remove memory-IsDatabase lookup insert bytes_eq
    lex_lt
hint_view-delete_hint_example =
    hint_view-delete_hint hint_codec memory-IsDatabase kept target key cleared target key refl refl
      refl
