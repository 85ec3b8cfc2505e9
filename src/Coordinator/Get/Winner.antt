-- ===== src/Coordinator/Get/Winner.antt =====
-- The value that `ReplicatedStore::get` (src/coordinator/mod.rs) chooses.
use diynamo.Base.{
  ◌≤◌, Bytes, none, some, List, [], ◌∷◌, ◌≡◌, ◌↔◌, refl, ap, subst, arith, leb, if◌then◌else◌, In,
  All, All-In, inl, inr,
}
use diynamo.Store.{VersionedValue}
use diynamo.Coordinator.Get.{ReadResponse, max_by_timestamp, present, max_of, winner_of}

max_by_timestamp-newest :
    (best : VersionedValue) (vs : List VersionedValue)
    → In (max_by_timestamp best vs) (best ∷ vs)
      × All (λ v. v.timestamp ≤ (max_by_timestamp best vs).timestamp) (best ∷ vs)
unfolding max_by_timestamp
max_by_timestamp-newest best [] = (inl refl, (omega arith, tt))
max_by_timestamp-newest best (v ∷ vs) =
    ground (arith, max_by_timestamp-newest (if leb best.timestamp v.timestamp then v else best) vs)

present-In :
    (v : VersionedValue) (responses : List ReadResponse)
    → In v (present responses)
    → (url : Bytes) × In (url, some v) responses
unfolding present
present-In v [] m = absurd m
present-In v ((u, none) ∷ rest) m = let (url, i) = present-In v rest m in (url, inr i)
present-In v ((u, some x) ∷ rest) (inl e) = (u, inl (ap (λ (y : VersionedValue). (u, some y)) e))
present-In v ((u, some x) ∷ rest) (inr m) = let (url, i) = present-In v rest m in (url, inr i)

In-present :
    (v : VersionedValue) (url : Bytes) (responses : List ReadResponse)
    → In (url, some v) responses
    → In v (present responses)
unfolding present
In-present v url [] m = absurd m
In-present v url ((u, none) ∷ rest) (inl e) = cc (ap (λ (r : ReadResponse). r.1) e)
In-present v url ((u, none) ∷ rest) (inr m) = In-present v url rest m
In-present v url ((u, some x) ∷ rest) (inl e) = inl (cc (ap (λ (r : ReadResponse). r.1) e))
In-present v url ((u, some x) ∷ rest) (inr m) = inr (In-present v url rest m)

max_of-newest :
    (vs : List VersionedValue) (winner : VersionedValue)
    → max_of vs ≡ some winner
    → In winner vs × All (λ v. v.timestamp ≤ winner.timestamp) vs
unfolding max_of
max_of-newest [] winner h = cc
max_of-newest (v ∷ vs) winner h =
    let e : max_by_timestamp v vs ≡ winner = cc in
    subst (λ m. In m (v ∷ vs) × All (λ x. x.timestamp ≤ m.timestamp) (v ∷ vs)) e
      (max_by_timestamp-newest v vs)

max_of-none : (vs : List VersionedValue) → max_of vs ≡ none → vs ≡ []
unfolding max_of
max_of-none [] h = refl
max_of-none (v ∷ vs) h = cc

nothing_present :
    (vs : List VersionedValue) → ((v : VersionedValue) → In v vs → ⊥) → max_of vs ≡ none
unfolding max_of
nothing_present [] h = refl
nothing_present (v ∷ vs) h = absurd (h v (inl refl))

-- The winner of a read is one of the values that were returned, and no returned value is newer.
pub winner_of-newest :
    (responses : List ReadResponse) (winner : VersionedValue)
    → winner_of responses ≡ some winner
    → ((url : Bytes) × In (url, some winner) responses)
      × ((url : Bytes) (v : VersionedValue)
          → In (url, some v) responses
          → v.timestamp ≤ winner.timestamp)
unfolding winner_of
winner_of-newest responses winner h =
    let (i, newest) = max_of-newest (present responses) winner h in
    (
      present-In winner responses i,
      λ url v m.
          All-In (λ x. x.timestamp ≤ winner.timestamp) v (present responses) newest
            (In-present v url responses m),
    )

-- A read finds no value exactly when no response carries one.
pub winner_of-none_iff :
    (responses : List ReadResponse)
    → (winner_of responses ≡ none)
      ↔ ((url : Bytes) (v : VersionedValue) → ¬ In (url, some v) responses)
unfolding winner_of
winner_of-none_iff responses = (
  λ h url v m. subst (In v) (max_of-none (present responses) h) (In-present v url responses m),
  λ h.
      nothing_present (present responses)
        (λ v m. let (url, i) = present-In v responses m in h url v i),
)
