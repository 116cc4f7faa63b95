-- ===== src/LoadBalance/Registry.antt =====
-- core/loadbalance: the selectors under their names, and the one that a method asks for.
pub mod Fallback
use jocasta.Prelude.{
  ℕ, ◌+◌, ◌&&◌, Bool, true, false, Option, none, some, List, [], ◌∷◌, leb, if◌then◌else◌,
}
use jocasta.Go.Result.{Result, ok, panic, ◌>>=◌}
use jocasta.Go.Io.{Bytes}
use jocasta.Go.Net.{bytes_eq}
use jocasta.LoadBalance.Pool.{NoError}
use jocasta.LoadBalance.Weight.{Weight, new_weight}

-- The selectors with their states.
pub data Selector : Type 0 where
  random : Selector
  round_robin : ℕ → Selector
  least_conn : Selector
  ip_hash : Selector
  addr_hash : Selector
  least_time : Selector
  weight : Weight → Selector

-- The map `selectors`. What a constructor function returns is always the same, so it stands for it.
abbrev pub Registry : Type 0
Registry = List (Bytes × Selector)

unfoldable pub lookup : Bytes → Registry → Option Selector
lookup method [] = none
lookup method ((name, s) ∷ rs) =
    let rest = lookup method rs in if bytes_eq name method then some s else rest

-- RegisterSelector: the function may be nil, and it may return nil.
unfoldable pub register_selector :
    Bytes → Option (Option Selector) → Registry → Result NoError Registry
register_selector method none rs = panic
register_selector method (some none) rs = panic
register_selector method (some (some s)) rs = elim (lookup method rs) [
  | none ↦ ok ((method, s) ∷ rs)
  | some _ ↦ panic
]

abbrev pub random_name : Bytes
random_name = 114 ∷ 97 ∷ 110 ∷ 100 ∷ 111 ∷ 109 ∷ []

abbrev pub roundrobin_name : Bytes
roundrobin_name = 114 ∷ 111 ∷ 117 ∷ 110 ∷ 100 ∷ 114 ∷ 111 ∷ 98 ∷ 105 ∷ 110 ∷ []

abbrev pub leastconn_name : Bytes
leastconn_name = 108 ∷ 101 ∷ 97 ∷ 115 ∷ 116 ∷ 99 ∷ 111 ∷ 110 ∷ 110 ∷ []

abbrev pub hash_name : Bytes
hash_name = 104 ∷ 97 ∷ 115 ∷ 104 ∷ []

abbrev pub addrhash_name : Bytes
addrhash_name = 97 ∷ 100 ∷ 100 ∷ 114 ∷ 104 ∷ 97 ∷ 115 ∷ 104 ∷ []

abbrev pub leasttime_name : Bytes
leasttime_name = 108 ∷ 101 ∷ 97 ∷ 115 ∷ 116 ∷ 116 ∷ 105 ∷ 109 ∷ 101 ∷ []

abbrev pub weight_name : Bytes
weight_name = 119 ∷ 101 ∷ 105 ∷ 103 ∷ 104 ∷ 116 ∷ []

-- init
unfoldable pub init : Result NoError Registry
unfolding register_selector
init =
    register_selector random_name (some (some random)) []
    >>= register_selector roundrobin_name (some (some (round_robin 0)))
    >>= register_selector leastconn_name (some (some least_conn))
    >>= register_selector hash_name (some (some ip_hash))
    >>= register_selector addrhash_name (some (some addr_hash))
    >>= register_selector leasttime_name (some (some least_time))
    >>= register_selector weight_name (some (some (weight new_weight)))

-- strings.ToLower, on ASCII letters.
abbrev pub to_lower : Bytes → Bytes
to_lower [] = []
to_lower (c ∷ cs) = (if leb 65 c && leb c 90 then c + 32 else c) ∷ to_lower cs

-- The result of getNewSelectorFunction, called: a nil function panics.
unfoldable pub new_selector : Bytes → Registry → Result NoError Selector
new_selector method rs = elim (lookup (to_lower method) rs) [
  | some s ↦ ok s
  | none ↦ elim (lookup roundrobin_name rs) [ some s ↦ ok s | none ↦ panic ]
]

-- HasSupportMethod
pub has_support_method : Bytes → Registry → Bool
has_support_method method rs = elim (lookup (to_lower method) rs) [ some _ ↦ true | none ↦ false ]

-- Methods: a map has no order, so the list stands for any order of its names.
pub methods : Registry → List Bytes
methods [] = []
methods ((name, _) ∷ rs) = name ∷ methods rs
