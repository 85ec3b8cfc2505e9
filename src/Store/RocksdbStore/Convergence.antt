-- ===== src/Store/RocksdbStore/Convergence.antt =====
-- Sequences of `put_if_newer` (src/store/rocksdb_store.rs) that arrive at the replicas of a key.
use diynamo.Base.{
  Bytes, bytes_eq_refl, Result, ok, ok-injective, ◌>>=◌, >>=-eq-ok, Option, none, some, List, [],
  ◌∷◌, ◌≡◌, refl, sym, ap, ◌∙◌, subst, arith, ◌≤◌, inl, inr, In, All, All-In, Option-cases,
}
use diynamo.Store.Database.{Database, IsDatabase, Bincode, IsBincode}
use diynamo.Store.RocksdbStore.{StoredEntry, put_if_newer}
use diynamo.Store.RocksdbStore.Lww.{newer, view, view-put_if_newer}

-- The entry left by a sequence of writes.
unfoldable pub merge : Option StoredEntry → List StoredEntry → Option StoredEntry
merge o [] = o
merge o (e ∷ es) = merge (some (newer o e)) es

-- The entry held before, and the writes.
abbrev pub pool : Option StoredEntry → List StoredEntry → List StoredEntry
pool none ws = ws
pool (some c) ws = c ∷ ws

abbrev IsNewest : StoredEntry → List StoredEntry → Type 0
IsNewest m ws = In m ws × All (λ e. e.timestamp ≤ m.timestamp) ws

merge-IsNewest :
    (o : Option StoredEntry) (ws : List StoredEntry) (m : StoredEntry)
    → merge o ws ≡ some m
    → IsNewest m (pool o ws)
unfolding merge newer
merge-IsNewest none [] m h = cc
merge-IsNewest (some c) [] m h = ground arith
merge-IsNewest none (e ∷ es) m h = merge-IsNewest (some e) es m h
merge-IsNewest (some c) (e ∷ es) m h =
    ground (arith, merge-IsNewest (some (newer (some c) e)) es m h)

merge-some-ne-none : (c : StoredEntry) (ws : List StoredEntry) → merge (some c) ws ≡ none → ⊥
unfolding merge
merge-some-ne-none c [] h = cc
merge-some-ne-none c (e ∷ es) h = merge-some-ne-none (newer (some c) e) es h

merge-none : (o : Option StoredEntry) (ws : List StoredEntry) → merge o ws ≡ none → pool o ws ≡ []
unfolding merge
merge-none none [] h = refl
merge-none (some c) ws h = absurd (merge-some-ne-none c ws h)
merge-none none (e ∷ es) h = absurd (merge-some-ne-none (newer none e) es h)

-- Every element of the first list is one of the second.
abbrev pub Within : List StoredEntry → List StoredEntry → Type 0
Within ps qs = (e : StoredEntry) → In e ps → In e qs

-- A timestamp tells the writes of a list apart.
abbrev pub UniqueTimestamps : List StoredEntry → Type 0
UniqueTimestamps ps = (a b : StoredEntry) → In a ps → In b ps → a.timestamp ≡ b.timestamp → a ≡ b

newest_unique :
    (ps qs : List StoredEntry) (m k : StoredEntry)
    → Within ps qs
    → Within qs ps
    → UniqueTimestamps ps
    → IsNewest m ps
    → IsNewest k qs
    → m ≡ k
newest_unique ps qs m k to from unique hm hk =
    let mk : m.timestamp ≤ k.timestamp =
      All-In (λ e. e.timestamp ≤ k.timestamp) m qs hk.1 (to m hm.0) in
    let km : k.timestamp ≤ m.timestamp =
      All-In (λ e. e.timestamp ≤ m.timestamp) k ps hm.1 (from k hk.0) in
    unique m k hm.0 (from k hk.0) (omega arith)

not-In-none :
    (o : Option StoredEntry) (ws qs : List StoredEntry) (m : StoredEntry)
    → merge o ws ≡ none
    → Within qs (pool o ws)
    → In m qs
    → ⊥
not-In-none o ws qs m h from i = subst (In m) (merge-none o ws h) (from m i)

merge_confluent :
    (o u : Option StoredEntry) (ws us : List StoredEntry)
    → Within (pool o ws) (pool u us)
    → Within (pool u us) (pool o ws)
    → UniqueTimestamps (pool o ws)
    → merge o ws ≡ merge u us
merge_confluent o u ws us to from unique = elim (Option-cases (merge o ws)) [
  | inl e ↦ elim (Option-cases (merge u us)) [
    | inl f ↦ e ∙ sym f
    | inr (k, f) ↦ absurd (not-In-none o ws (pool u us) k e from (merge-IsNewest u us k f).0)
  ]
  | inr (m, e) ↦ elim (Option-cases (merge u us)) [
    | inl f ↦ absurd (not-In-none u us (pool o ws) m f to (merge-IsNewest o ws m e).0)
    | inr (k, f) ↦
        e
        ∙ ap some (
            newest_unique (pool o ws) (pool u us) m k to from unique (merge-IsNewest o ws m e)
              (merge-IsNewest u us k f))
        ∙ sym f
  ]
]

module _ {Db : Type 0} (api : Database Db) (codec : Bincode StoredEntry) where
  -- A sequence of versioned writes of one key arriving at a replica.
  unfoldable pub deliver : Db → Bytes → List StoredEntry → Result Db
  deliver db key [] = ok db
  deliver db key (e ∷ es) = do
    db' ← put_if_newer api codec db key e.data' e.timestamp
    deliver db' key es

module _ {Db : Type 0} {api : Database Db} {codec : Bincode StoredEntry} (laws : IsDatabase api)
    (coding : IsBincode codec) where
  pub view-deliver :
      (db : Db) (key : Bytes) (ws : List StoredEntry) (db' : Db)
      → deliver api codec db key ws ≡ ok db'
      → view laws coding db' key ≡ merge (view laws coding db key) ws
  unfolding deliver merge
  view-deliver db key [] db' h = ap (λ d. view laws coding d key) (sym (ok-injective _ _ h))
  view-deliver db key (e ∷ es) db' h =
      let (d, p, r) = >>=-eq-ok _ _ h in
      let step = view-put_if_newer laws coding db key e.data' e.timestamp d key p in
      view-deliver d key es db' r ∙ ap (λ o. merge o es) (rw (bytes_eq_refl key) at step)

  -- Two replicas apply writes of a key by successful calls of `put_if_newer`. If their held entries
  -- and received writes are the same, in whatever order and however often each write arrived, then
  -- they hold the same entry in the end, if no two different ones of these have the same timestamp.
  pub replicas_converge :
      (db₁ db₂ : Db) (key : Bytes) (ws us : List StoredEntry) (db₁' db₂' : Db)
      → deliver api codec db₁ key ws ≡ ok db₁'
      → deliver api codec db₂ key us ≡ ok db₂'
      → Within (pool (view laws coding db₁ key) ws) (pool (view laws coding db₂ key) us)
      → Within (pool (view laws coding db₂ key) us) (pool (view laws coding db₁ key) ws)
      → UniqueTimestamps (pool (view laws coding db₁ key) ws)
      → view laws coding db₁' key ≡ view laws coding db₂' key
  replicas_converge db₁ db₂ key ws us db₁' db₂' d e to from unique =
      view-deliver db₁ key ws db₁' d
      ∙ merge_confluent _ _ ws us to from unique
      ∙ sym (view-deliver db₂ key us db₂' e)
