-- ===== src/Cluster/Printer/UnitTests.antt =====
-- The unit test of src/cluster/printer.rs.
use diynamo.Base.{
  ℕ, suc, Bytes, codes, starts_with, lex_lt, join, Bool, true, false, ◌&&◌, Option, none, some, [],
  ◌∷◌, ◌≡◌, refl, replicate, ltb, if◌then◌else◌, contains,
}
use mathlib.Core.Option
use diynamo.Cluster.Types.{MemberInfo, display}
use diynamo.Base.Utf8.{decimal, decimal_u16}
use diynamo.Cluster.Printer.{format_live_set}

-- `str::find`
find : Bytes → Bytes → Option ℕ
find [] p = if starts_with [] p then some 0 else none
find (c ∷ s) p = if starts_with (c ∷ s) p then some 0 else Option.map suc (find s p)

-- `str::contains`
contains_text : Bytes → Bytes → Bool
unfolding find
contains_text s p = elim (find s p) [ some i ↦ true | none ↦ false ]

-- `s.find(..).unwrap() < s.find(..).unwrap()`
before : Option ℕ → Option ℕ → Bool
before (some i) (some j) = ltb i j
before _ _ = false

abbrev node : Bytes → ℕ → ℕ → MemberInfo
node id gossip_port forward_port = record {
  id = id;
  gossip_addr = record { ip = codes "127.0.0.1"; port = gossip_port };
  forward_port = forward_port;
  uuid = replicate 16 0;
}

format_live_set_sorted : Bool
unfolding contains_text before find
format_live_set_sorted =
    let s = format_live_set (node (codes "n2") 7947 8082 ∷ node (codes "n1") 7946 8081 ∷ []) in
    contains_text s (codes "n1@127.0.0.1:7946")
    && contains_text s (codes "n2@127.0.0.1:7947")
    && before (find s (codes "n1")) (find s (codes "n2"))

format_live_set_sorted_passes : format_live_set_sorted ≡ true
unfolding format_live_set_sorted format_live_set starts_with lex_lt decimal join display decimal_u16
    contains
format_live_set_sorted_passes = refl
