-- ===== src/Tests/Deliveries.antt =====
-- A delivery round to a server that accepts every request.
use diynamo.Base.{
  ℕ, Bytes, codes, bytes_eq, contains, lex_lt, message, ok, err, some, List, [], ◌∷◌, ◌≡◌, ◌⊎◌, inl,
  inr, refl, In, Bool-cases,
}
use diynamo.Base.Exec.{Exec}
use diynamo.Base.Utf8.{is_utf8}
use diynamo.Api.{Request, Response, put_versioned_body}
use diynamo.Client.{
  with_http, put_request, internal_kv_versioned_url, send_with, put_internal_versioned_bytes,
}
use diynamo.Store.Database.Ordered.{lookup, insert}
use diynamo.Store.Memory.{Memory, empty, memory, memory-IsDatabase}
use diynamo.Store.Hints.{hint_key, store_hint}
use diynamo.Store.Hints.View.{decoded, hint_view}
use diynamo.Coordinator.Handoff.Deliver.{deliver_hints}
use diynamo.Coordinator.Handoff.Deliver.Safety.{Receives, deliver_hints_safe}
use diynamo.Tests.Fixtures.{hint_codec, database_or}

-- The server remembers the requests.
abbrev accept : Request → Exec (List Request) Response
accept request log = (ok (record { status = 200; json = err (message "no body") }), request ∷ log)

abbrev url : Bytes
url = codes "http://h:1"

abbrev versioned_put : Bytes → Bytes → ℕ → Request
versioned_put key value ts =
    put_request (internal_kv_versioned_url (with_http url) key)
      (put_versioned_body (record { value = value; timestamp = ts }))

abbrev Logged : Bytes → Bytes → ℕ → List Request → Type 0
Logged key value ts log = In (versioned_put key value ts) log

Logged-kept :
    (key value : Bytes) (ts : ℕ) (j v : Bytes) (s : ℕ) (log : List Request)
    → Logged key value ts log
    → Logged key value ts (put_internal_versioned_bytes accept (with_http url) j v s log).1
unfolding put_internal_versioned_bytes send_with
Logged-kept key value ts j v s log h = elim (Bool-cases (is_utf8 j)) [
  | inr n ↦ rw n h
  | inl y ↦ elim (Bool-cases (is_utf8 v)) [ inr n ↦ rw (y, n) h | inl z ↦ rw (y, z) (inr h) ]
]

Logged-gained :
    (key value : Bytes) (ts : ℕ) (log : List Request)
    → (put_internal_versioned_bytes accept (with_http url) key value ts log).0 ≡ ok tt
    → Logged key value ts (put_internal_versioned_bytes accept (with_http url) key value ts log).1
unfolding put_internal_versioned_bytes send_with
Logged-gained key value ts log h = elim (Bool-cases (is_utf8 key)) [
  | inr n ↦ cc (rw n at h)
  | inl y ↦ elim (Bool-cases (is_utf8 value)) [
    | inr n ↦ cc (rw (y, n) at h)
    | inl z ↦ rw (y, z) (inl refl)
  ]
]

Logged-Receives : Receives accept (with_http url) Logged
Logged-Receives = record { keep = Logged-kept; gain = Logged-gained }

abbrev kept : Memory
kept = database_or empty (store_hint memory hint_codec empty (codes "a") (codes "k") (codes "y") 2)

deliver_hints_safe_example :
    (hint_view hint_codec memory-IsDatabase
        (deliver_hints memory hint_codec accept (ok tt) (codes "a") url kept []).0
        (codes "a")
        (codes "k")
      ≡ some (record { timestamp = 2; data' = codes "y" }))
    ⊎ Logged
        (codes "k")
        (codes "y")
        2
        (deliver_hints memory hint_codec accept (ok tt) (codes "a") url kept []).1
unfolding store_hint hint_key hint_view decoded memory-IsDatabase lookup insert bytes_eq lex_lt
    contains
deliver_hints_safe_example =
    deliver_hints_safe hint_codec memory-IsDatabase accept url Logged Logged-Receives (codes "a")
      refl (codes "k") (codes "y") 2 (ok tt) kept [] refl
