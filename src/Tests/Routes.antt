-- ===== src/Tests/Routes.antt =====
-- A transport that routes the URLs of one-byte keys and ids, and answers all but one message.
use mathlib.Core.List.{append_assoc, reverse, reverse-append, reverse-reverse}
use diynamo.Base.{
  ℕ, ◌+◌, Bytes, codes, Bool, true, false, message, err, Option, none, some, [], ◌∷◌, ◌++◌, ◌≡◌, ap,
  ◌∙◌, if◌then◌else◌, ◌==◌, leb,
}
use diynamo.Api.{Body, empty, PutVersionedBody, put_versioned_body}
use diynamo.Client.{
  KvClient, put_request, get_request, internal_kv_url, internal_kv_versioned_url, hint_url,
}
use diynamo.Network.{
  Call, get_internal, put_versioned, put_hint, Fate, arrives, lost_request, Transport, IsTransport,
}

abbrev pub is_plain : Bytes → Bool
is_plain [] = false
is_plain (c ∷ []) = true
is_plain (c ∷ d ∷ s) = false

strip : Bytes → Bytes → Option Bytes
strip [] s = some s
strip (b ∷ p) [] = none
strip (b ∷ p) (a ∷ s) = if a == b then strip p s else none

-- The base URL in front of a path, both read backwards.
base : Option Bytes → Call → Option (Bytes × Call)
base none call = none
base (some s) call = some (reverse s, call)

route_versioned : PutVersionedBody → Bytes → Option (Bytes × Call)
unfolding strip base
route_versioned body [] = none
route_versioned body (c ∷ s) =
    base (strip (reverse (codes "/internal/kv-versioned/")) s) (put_versioned (c ∷ []) body)

route_put : PutVersionedBody → Bytes → Option (Bytes × Call)
unfolding strip base route_versioned
route_put body (c ∷ slash ∷ d ∷ s) = elim (strip (reverse (codes "/internal/hint/")) s) [
  | some b ↦ some (reverse b, put_hint (d ∷ []) (c ∷ []) body)
  | none ↦ route_versioned body (c ∷ slash ∷ d ∷ s)
]
route_put body s = none

route_get : Bytes → Option (Bytes × Call)
unfolding strip base
route_get [] = none
route_get (c ∷ s) = base (strip (reverse (codes "/internal/kv/")) s) (get_internal (c ∷ []))

unfoldable pub route : Body → Bytes → Option (Bytes × Call)
unfolding route_put route_get
route (put_versioned_body body) s = route_put body s
route _ s = route_get s

-- The second message is lost.
unfoldable pub second_lost : ℕ → Fate
second_lost n = if n == 1 then lost_request else arrives

-- All messages behind the second are lost.
unfoldable pub later_lost : ℕ → Fate
later_lost n = if leb n 1 then arrives else lost_request

abbrev pub transport : Transport
transport = record {
  locate = λ request. route request.body (reverse request.url);
  reject = λ request. record { status = 404; json = err (message "no route") };
  fate = second_lost;
  clock = λ n. n + 5;
  no_json = message "no body";
}

route_get-base :
    (c : KvClient) (key : Bytes)
    → is_plain key ≡ true
    → transport.locate (get_request (internal_kv_url c key)) ≡ some (c.base_url, get_internal key)
unfolding route get_request internal_kv_url strip
route_get-base c [] h = cc
route_get-base c (k ∷ []) h =
    let path : Bytes = codes "/internal/kv/" ++ k ∷ [] in
    let turned : route empty (reverse (c.base_url ++ path))
        ≡ route empty (reverse path ++ reverse c.base_url) =
      ap (route empty) (reverse-append c.base_url path) in
    let found : route empty (reverse path ++ reverse c.base_url)
        ≡ some (c.base_url, get_internal (k ∷ [])) =
      ap {A = Bytes} (λ u. some (u, get_internal (k ∷ []))) (reverse-reverse c.base_url) in
    ap (λ u. route empty (reverse u)) (append_assoc c.base_url (codes "/internal/kv/") (k ∷ []))
    ∙ (turned ∙ found)
route_get-base c (k ∷ j ∷ s) h = cc

route_put-versioned :
    (c : KvClient) (key : Bytes) (body : PutVersionedBody)
    → is_plain key ≡ true
    → transport.locate (put_request (internal_kv_versioned_url c key) (put_versioned_body body))
      ≡ some (c.base_url, put_versioned key body)
unfolding route put_request internal_kv_versioned_url strip
route_put-versioned c [] body h = cc
route_put-versioned c (k ∷ []) body h =
    let path : Bytes = codes "/internal/kv-versioned/" ++ k ∷ [] in
    let turned : route (put_versioned_body body) (reverse (c.base_url ++ path))
        ≡ route (put_versioned_body body) (reverse path ++ reverse c.base_url) =
      ap (route (put_versioned_body body)) (reverse-append c.base_url path) in
    let found : route (put_versioned_body body) (reverse path ++ reverse c.base_url)
        ≡ some (c.base_url, put_versioned (k ∷ []) body) =
      ap {A = Bytes} (λ u. some (u, put_versioned (k ∷ []) body)) (reverse-reverse c.base_url) in
    ap (λ u. route (put_versioned_body body) (reverse u))
      (append_assoc c.base_url (codes "/internal/kv-versioned/") (k ∷ []))
    ∙ (turned ∙ found)
route_put-versioned c (k ∷ j ∷ s) body h = cc

route_put-hint :
    (c : KvClient) (target_id key : Bytes) (body : PutVersionedBody)
    → is_plain target_id ≡ true
    → is_plain key ≡ true
    → transport.locate (put_request (hint_url c target_id key) (put_versioned_body body))
      ≡ some (c.base_url, put_hint target_id key body)
unfolding route put_request hint_url strip
route_put-hint c [] key body g h = cc
route_put-hint c (t ∷ u ∷ s) key body g h = cc
route_put-hint c (t ∷ []) [] body g h = cc
route_put-hint c (t ∷ []) (k ∷ j ∷ s) body g h = cc
route_put-hint c (t ∷ []) (k ∷ []) body g h =
    let path : Bytes = codes "/internal/hint/" ++ t ∷ codes "/" ++ k ∷ [] in
    let turned : route (put_versioned_body body) (reverse (c.base_url ++ path))
        ≡ route (put_versioned_body body) (reverse path ++ reverse c.base_url) =
      ap (route (put_versioned_body body)) (reverse-append c.base_url path) in
    let found : route (put_versioned_body body) (reverse path ++ reverse c.base_url)
        ≡ some (c.base_url, put_hint (t ∷ []) (k ∷ []) body) =
      ap {A = Bytes} (λ u. some (u, put_hint (t ∷ []) (k ∷ []) body))
        (reverse-reverse c.base_url) in
    ap (λ u. route (put_versioned_body body) (reverse u))
      (append_assoc (c.base_url ++ codes "/internal/hint/" ++ t ∷ []) (codes "/") (k ∷ [])
        ∙ append_assoc (c.base_url ++ codes "/internal/hint/") (t ∷ []) (codes "/" ++ k ∷ [])
        ∙ append_assoc c.base_url (codes "/internal/hint/") (t ∷ codes "/" ++ k ∷ []))
    ∙ (turned ∙ found)

pub transport-IsTransport : IsTransport transport is_plain
transport-IsTransport = record {
  locate_get = route_get-base;
  locate_put_versioned = route_put-versioned;
  locate_put_hint = route_put-hint;
}

abbrev pub early_transport : Transport
early_transport = record transport { fate = later_lost }

pub early_transport-IsTransport : IsTransport early_transport is_plain
early_transport-IsTransport = record {
  locate_get = route_get-base;
  locate_put_versioned = route_put-versioned;
  locate_put_hint = route_put-hint;
}

abbrev pub healthy : Transport
healthy = record transport { fate = λ n. arrives }

pub healthy-IsTransport : IsTransport healthy is_plain
healthy-IsTransport = record {
  locate_get = route_get-base;
  locate_put_versioned = route_put-versioned;
  locate_put_hint = route_put-hint;
}
