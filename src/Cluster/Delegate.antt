-- ===== src/Cluster/Delegate.antt =====
-- src/cluster/delegate.rs: the metadata that every node gossips, as 18 bytes.
use mathlib.Core.List.{append-nil, append_assoc}
use diynamo.Base.{
  Result, ok, err, All, All-append, ◌≤◌, ℕ, zero, suc, ◌+◌, ◌*◌, ◌/◌, ◌%◌, ◌<◌, ◌^◌, Bytes,
  length-append, length, take, drop, get_or, replicate, Option, none, some, [], ◌∷◌, ◌++◌, ◌≡◌, ◌↔◌,
  refl, arith, ltb, if◌then◌else◌, ap,
}

pub record NodeMeta : Type 0 where
  pub uuid : Bytes
  pub http_port : ℕ

-- `buf[from..from + src.len()].copy_from_slice(src)`
abbrev copy_from_slice : ℕ → Bytes → Bytes → Bytes
copy_from_slice from src buf = take from buf ++ src ++ drop (from + length src) buf

-- `u16::to_be_bytes` and `u16::from_be_bytes`
abbrev to_be_bytes : ℕ → Bytes
to_be_bytes n = (n / 256) ∷ (n % 256) ∷ []

abbrev from_be_bytes : ℕ → ℕ → ℕ
from_be_bytes hi lo = hi * 256 + lo

-- `NodeMeta::to_bytes`
unfoldable pub to_bytes : NodeMeta → Bytes
to_bytes m =
    copy_from_slice 16 (to_be_bytes m.http_port) (copy_from_slice 0 m.uuid (replicate 18 0))

-- `NodeMeta::from_bytes`
unfoldable pub from_bytes : Bytes → Option NodeMeta
from_bytes bytes =
    if ltb (length bytes) 18
    then none
    else some (record {
      uuid = take 16 bytes;
      http_port = from_be_bytes (get_or bytes 16 0) (get_or bytes 17 0);
    })

-- The library's limit on a metadata block, and `Meta::try_from`, `unwrap_or_default`.
abbrev pub meta_max_size : ℕ
meta_max_size = 512

abbrev unwrap_or_default : Result Bytes → Bytes
unwrap_or_default (ok meta) = meta
unwrap_or_default (err e) = []

-- `DiynamoNodeDelegate::node_meta`; the limit it is given is not used.
unfoldable pub node_meta : (Bytes → Result Bytes) → NodeMeta → ℕ → Bytes
unfolding to_bytes
node_meta try_from local_meta limit = unwrap_or_default (try_from (to_bytes local_meta))

take_all : (s t : Bytes) (n : ℕ) → length s ≡ n → take n (s ++ t) ≡ s
take_all [] t zero h = refl
take_all [] t (suc n) h = absurd (omega arith)
take_all (a ∷ s) t zero h = absurd (omega arith)
take_all (a ∷ s) t (suc n) h = ap (◌∷◌ a) (take_all s t n (omega arith))

get_or-append : (s t : Bytes) (i j : ℕ) → j ≡ length s + i → get_or (s ++ t) j 0 ≡ get_or t i 0
get_or-append [] t i j h = ap (λ x. get_or t x 0) (omega arith)
get_or-append (a ∷ s) t i zero h = absurd (omega arith)
get_or-append (a ∷ s) t i (suc j) h = get_or-append s t i j (omega arith)

drop-append : (s t : Bytes) (i j : ℕ) → j ≡ length s + i → drop j (s ++ t) ≡ drop i t
drop-append [] t i j h = ap (λ x. drop x t) (omega arith)
drop-append (a ∷ s) t i zero h = absurd (omega arith)
drop-append (a ∷ s) t i (suc j) h = drop-append s t i j (omega arith)

-- The bytes of the wire form.
abbrev pub IsByteString : Bytes → Type 0
IsByteString s = All (λ b. b < 256) s

-- The wire form is the UUID and the two bytes of the port.
to_bytes_lem : (m : NodeMeta) → length m.uuid ≡ 16 → to_bytes m ≡ m.uuid ++ to_be_bytes m.http_port
unfolding to_bytes
to_bytes_lem m h =
    let zeros : Bytes = 0 ∷ 0 ∷ [] in
    let rest : drop (0 + length m.uuid) (replicate 18 0) ≡ zeros =
      ap (λ k. drop k (replicate 18 0)) {x = 0 + length m.uuid} {y = 16} (omega arith) in
    rw (rest, take_all m.uuid zeros 16 h, drop-append m.uuid zeros 2 18 (omega arith), append-nil)

-- A gossiped metadata block is read back as it was written, whatever follows it, for a UUID of 16
-- bytes and a port of 16 bits.
pub from_bytes-to_bytes :
    (m : NodeMeta) (rest : Bytes)
    → length m.uuid ≡ 16
    → m.http_port < 2 ^ 16
    → from_bytes (to_bytes m ++ rest) ≡ some m
unfolding from_bytes
from_bytes-to_bytes m rest h p =
    let port = to_be_bytes m.http_port ++ rest in
    rw
      (
        to_bytes_lem m h,
        append_assoc,
        get_or-append m.uuid port 0 16 (omega arith),
        get_or-append m.uuid port 1 17 (omega arith),
        take_all m.uuid port 16 h,
      )
      (ground (arith, length-append m.uuid port))

-- A block shorter than 18 bytes is refused, and any other is read.
pub from_bytes-eq-none_iff : (bytes : Bytes) → (from_bytes bytes ≡ none) ↔ (length bytes < 18)
unfolding from_bytes
from_bytes-eq-none_iff bytes = ground arith

-- The wire form has 18 bytes, well within the library's limit, and each of them is a byte, for a
-- UUID of 16 bytes and a port of 16 bits.
pub to_bytes-IsByteString :
    (m : NodeMeta)
    → length m.uuid ≡ 16
    → IsByteString m.uuid
    → m.http_port < 2 ^ 16
    → (length (to_bytes m) ≡ 18) × (length (to_bytes m) ≤ meta_max_size) × IsByteString (to_bytes m)
to_bytes-IsByteString m h u p =
    let port = to_be_bytes m.http_port in
    let measured : length (m.uuid ++ port) ≡ 18 = omega (arith, length-append m.uuid port, h) in
    rw (to_bytes_lem m h) (
      measured,
      omega (arith, measured),
      All-append (λ b. b < 256) m.uuid port u (omega arith, (omega arith, tt)),
    )
