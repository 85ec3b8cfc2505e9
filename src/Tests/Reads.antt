-- ===== src/Tests/Reads.antt =====
-- Runs of the read path.
use diynamo.Base.{
  ℕ, Bytes, codes, quorum_failed, ok, err, Option, none, some, List, [], ◌∷◌, ◌≡◌, ◌↔◌, ◌≤◌, refl,
  In,
}
use diynamo.Base.Utf8.{is_utf8}
use diynamo.Base.Exec.{Exec}
use diynamo.Api.{Response}
use diynamo.Client.{with_http, get_internal_versioned}
use diynamo.Client.Laws.{get_internal_versioned-none_iff}
use diynamo.Store.{VersionedValue}
use diynamo.Coordinator.Get.{
  ReadResponse, winner_of, present, max_of, max_by_timestamp, spawn_repairs,
}
use diynamo.Coordinator.Get.Winner.{winner_of-newest}
use diynamo.Coordinator.Get.Repairs.{Stale, spawn_repairs_iff}

abbrev value : ℕ → VersionedValue
value t = record { timestamp = t; data' = codes "x" }

abbrev responses : List ReadResponse
responses = (codes "u", some (value 1)) ∷ (codes "v", some (value 2)) ∷ (codes "w", none) ∷ []

winner_of-newest_example :
    ((url : Bytes) × In {A = ReadResponse} (url, some (value 2)) responses)
    × ((url : Bytes) (v : VersionedValue)
        → In {A = ReadResponse} (url, some v) responses
        → v.timestamp ≤ 2)
unfolding winner_of present max_of max_by_timestamp
winner_of-newest_example = winner_of-newest responses (value 2) refl

spawn_repairs_iff_example :
    In {A = Bytes × VersionedValue}
      (codes "w", value 2)
      (spawn_repairs (winner_of responses) responses)
    ↔ ((winner_of responses ≡ some (value 2))
        × ((opt : Option VersionedValue) × In {A = ReadResponse} (codes "w", opt) responses
            × Stale (value 2) opt))
spawn_repairs_iff_example = spawn_repairs_iff responses (codes "w") (value 2)

-- A server that answers every request with 404.
abbrev missing : Exec ℕ Response
missing n = (ok (record { status = 404; json = err (quorum_failed 0 0) }), n)

get_internal_versioned-none_iff_example :
    ((get_internal_versioned (λ r. missing) (with_http (codes "h")) (codes "k") 0).0 ≡ ok none)
    ↔ ((response : Response) × ((missing 0).0 ≡ ok response) × (response.status ≡ 404))
unfolding is_utf8
get_internal_versioned-none_iff_example =
    get_internal_versioned-none_iff (λ r. missing) (with_http (codes "h")) (codes "k") 0 refl
