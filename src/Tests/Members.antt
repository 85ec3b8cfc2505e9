-- ===== src/Tests/Members.antt =====
-- What a gossip library reports of its members, and what is shown of them.
use mathlib.Core.List.{Permᴰ}
use diynamo.Base.{
  ℕ, codes, ok, err, Error, Result, [], ◌∷◌, ◌≡◌, ◌≢◌, ◌⊎◌, ◌↔◌, refl, arith, All, bytes_eq, true,
  false, ap, ◌<◌,
}
use diynamo.Cluster.Types.{MemberInfo}
use diynamo.Cluster.Delegate.{IsByteString}
use diynamo.Cluster.Membership.{partly_joined, online_members, start}
use diynamo.Cluster.Membership.Advertised.{IsMeta, online_members-advertised}
use diynamo.Cluster.Membership.Subscriptions.{start_fails_iff}
use diynamo.Cluster.Printer.{format_live_set, format_live_set-perm}
use diynamo.Tests.Fixtures.{member}
use diynamo.Tests.Gossip.{addr, meta, one_seed, node}

meta-IsByteString : IsByteString meta.uuid
meta-IsByteString =
    let b : 7 < 256 = omega arith in
    (b, (b, (b, (b, (b, (b, (b, (b, (b, (b, (b, (b, (b, (b, (b, (b, tt))))))))))))))))

meta-IsMeta : IsMeta meta
meta-IsMeta = record { uuid_length = refl; uuid_bytes = meta-IsByteString; port_u16 = omega arith }

online_members-advertised_example :
    All
      (λ m. (m.forward_port ≡ meta.http_port) × (m.uuid ≡ meta.uuid))
      (online_members one_seed node 0).0
online_members-advertised_example =
    online_members-advertised ok (λ s h. refl) one_seed node 0 (λ id. meta)
      ((meta-IsMeta, (512, refl)), tt)

start_fails_iff_example :
    ((x : Error) × ((start one_seed (codes "a") addr (addr ∷ []) meta 0).0 ≡ err x)) ↔ (
      ((x : Error) × (◌≡◌ {A = Result (ℕ × ℕ)} (ok (1, 2)) (err x)))
      ⊎ ((inner : ℕ) × (events : ℕ) × (◌≡◌ {A = Result (ℕ × ℕ)} (ok (1, 2)) (ok (inner, events)))
          × ((addr ∷ []) ≢ [])
          × (partly_joined (addr ∷ []) ≡ partly_joined [])))
start_fails_iff_example = start_fails_iff one_seed (codes "a") addr (addr ∷ []) meta 0

abbrev a : MemberInfo
a = member (codes "a") 1

abbrev b : MemberInfo
b = member (codes "b") 2

a-not-b : codes "a" ≢ codes "b"
unfolding bytes_eq
a-not-b e = let h : true ≡ false = ap (bytes_eq (codes "a")) e in cc

format_live_set-perm_example : format_live_set (a ∷ b ∷ []) ≡ format_live_set (b ∷ a ∷ [])
format_live_set-perm_example = format_live_set-perm (Permᴰ.swap refl refl) ((a-not-b, tt), (tt, tt))
