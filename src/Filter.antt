-- ===== src/Filter.antt =====
-- core/filter/filter.go: which domains are proxied. The maps are of a third-party package, taken as
-- an interface with what its documentation promises.
pub mod Labels
pub mod Adds
pub mod Probes
pub mod FunctionMap
mod Tests
use jocasta.Prelude.{
  ℕ, suc, ◌+◌, ◌*◌, ◌%◌, ◌^◌, ◌&&◌, ◌||◌, Bool, true, false, not, Option, none, some, List, [], ◌∷◌,
  ◌++◌, length, take, drop, ltb, leb, ◌==◌, ◌≡◌, if◌then◌else◌,
}
use jocasta.Prelude.Int.{ℤ, pos, ltb_ℤ, ◌-ℤ◌}
use jocasta.Go.Result.{ok, err, panic}
use jocasta.Go.Io.{Bytes}
use jocasta.Go.Net.{bytes_eq}
use jocasta.Go.HostPort.{split_host_port}

-- A concurrent map from strings: New, Get, Has and Set.
pub record ConcurrentMap (V : Type 0) : Type 1 where
  pub carrier : Type 0
  pub empty : carrier
  pub get : Bytes → carrier → Option V
  pub put : Bytes → V → carrier → carrier
  pub get_empty : (k : Bytes) → get k empty ≡ none
  pub get_put : (k : Bytes) (v : V) (m : carrier) → get k (put k v m) ≡ some v
  pub get_put_other :
      (k l : Bytes) (v : V) (m : carrier) → bytes_eq k l ≡ false → get l (put k v m) ≡ get l m

pub record Item : Type 0 where
  pub addr : Bytes
  pub success_count : ℕ
  pub failure_count : ℕ
  pub last_active_time : ℤ

abbrev pub is_some {ℓ} : {A : Type ℓ} → Option A → Bool
is_some none = false
is_some (some _) = true

-- strings.TrimPrefix
abbrev pub trim_prefix : Bytes → Bytes → Bytes
trim_prefix p s = if bytes_eq (take (length p) s) p then drop (length p) s else s

-- "http://" and "https://"
abbrev pub http_prefix : Bytes
http_prefix = 104 ∷ 116 ∷ 116 ∷ 112 ∷ 58 ∷ 47 ∷ 47 ∷ []

abbrev pub https_prefix : Bytes
https_prefix = 104 ∷ 116 ∷ 116 ∷ 112 ∷ 115 ∷ 58 ∷ 47 ∷ 47 ∷ []

-- hostname
unfoldable pub hostname : Bytes → Bytes
hostname domain =
    let trimmed = trim_prefix https_prefix (trim_prefix http_prefix domain) in
    elim (split_host_port trimmed) [
      | ok hp ↦ if length hp.0 == 0 then trimmed else hp.0
      | err _ ↦ trimmed
      | panic ↦ trimmed
    ]

-- A byte in front of the first part.
abbrev pub extend : ℕ → List Bytes → List Bytes
extend c [] = (c ∷ []) ∷ []
extend c (p ∷ ps) = (c ∷ p) ∷ ps

-- strings.Split and strings.Join, at "."
unfoldable pub split : Bytes → List Bytes
split [] = [] ∷ []
split (c ∷ cs) = let rest = split cs in if c == 46 then [] ∷ rest else extend c rest

unfoldable pub join : List Bytes → Bytes
join [] = []
join (p ∷ []) = p
join (p ∷ q ∷ ps) = p ++ (46 ∷ join (q ∷ ps))

-- The loop of Match, which tries the shortest suffix first.
unfoldable pub match_loop : (Bytes → Bool) → List Bytes → Bool
match_loop has [] = false
match_loop has (p ∷ ps) =
    let shorter = match_loop has ps in if shorter then true else has (join (p ∷ ps))

-- Match, given the Has of the table.
unfoldable pub match : (Bytes → Bool) → Bytes → Bool
unfolding hostname split match_loop
match has domain =
    let labels = split (hostname domain) in
    if leb (length labels) 1 then false else match_loop has labels

-- strings.Split at a line feed.
pub lines : Bytes → List Bytes
lines [] = [] ∷ []
lines (c ∷ cs) = let rest = lines cs in if c == 10 then [] ∷ rest else extend c rest

-- The bytes that strings.Trim(line, "\r \t") takes off the ends.
abbrev pub is_blank : ℕ → Bool
is_blank c = c == 13 || (c == 32 || c == 9)

pub trim_left : Bytes → Bytes
trim_left [] = []
trim_left (c ∷ cs) = let rest = trim_left cs in if is_blank c then rest else c ∷ cs

pub trim_right : Bytes → Bytes
trim_right [] = []
trim_right (c ∷ cs) =
    let rest = trim_right cs in if is_blank c && (length rest == 0) then [] else c ∷ rest

-- isNeedLivenessProde, at the time `now`.
unfoldable pub is_need_liveness_probe : ℤ → ℕ → ℕ → ℤ → Item → Bool
is_need_liveness_probe now success_threshold failure_threshold alive_threshold item = not (
    (leb success_threshold item.success_count || leb failure_threshold item.failure_count)
    && (ltb item.failure_count item.success_count
        && ltb_ℤ (now -ℤ item.last_active_time) alive_threshold))

-- What run does with an item that needs a probe, given whether the probe succeeded.
unfoldable pub probed : ℤ → ℤ → Bool → Item → Item
probed now alive_threshold outcome item =
    let stale = ltb_ℤ alive_threshold (now -ℤ item.last_active_time) in
    let failures = if stale then 0 else item.failure_count in
    let successes = if stale then 0 else item.success_count in
    record {
      addr = item.addr;
      success_count = if outcome then (successes + 1) % 2 ^ 64 else successes;
      failure_count = if outcome then failures else (failures + 1) % 2 ^ 64;
      last_active_time = now;
    }

pub data Mode : Type 0 where
  direct proxy intelligent : Mode

-- The cases of IsProxy on the texts "direct", "proxy" and every other.
pub mode_of : Bytes → Mode
mode_of s =
    if bytes_eq s (100 ∷ 105 ∷ 114 ∷ 101 ∷ 99 ∷ 116 ∷ [])
    then direct
    else if bytes_eq s (112 ∷ 114 ∷ 111 ∷ 120 ∷ 121 ∷ [])
    then proxy
    else intelligent

-- The last case of IsProxy.
unfoldable pub judge : ℤ → ℤ → Item → Bool
judge now alive_threshold item =
    leb item.success_count item.failure_count
    && ltb_ℤ (now -ℤ item.last_active_time) alive_threshold

-- The answer of IsProxy.
pub record Answer : Type 0 where
  pub proxied : Bool
  pub in_map : Bool
  pub failures : ℕ
  pub successes : ℕ

module _ (Items : ConcurrentMap Item) (Hosts : ConcurrentMap (Unit {0})) where
  -- The fields of Filter that its operations read; the thresholds are uint and seconds.
  pub record Filter : Type 0 where
    pub mode : Mode
    pub cache : Items.carrier
    pub proxies : Hosts.carrier
    pub directs : Hosts.carrier
    pub success_threshold : ℕ
    pub failure_threshold : ℕ
    pub alive_threshold : ℤ

  -- New, less its options and its goroutine.
  pub new : Bytes → Filter
  new intelligent_text = record {
    mode = mode_of intelligent_text;
    cache = Items.empty;
    proxies = Hosts.empty;
    directs = Hosts.empty;
    success_threshold = 3;
    failure_threshold = 3;
    alive_threshold = pos (30 * 60);
  }

  -- Match with the table of the proxied domains, and of the direct ones.
  unfoldable pub match_proxy : Filter → Bytes → Bool
  match_proxy f domain = match (λ k. is_some (Hosts.get k f.proxies)) domain

  unfoldable pub match_direct : Filter → Bytes → Bool
  match_direct f domain = match (λ k. is_some (Hosts.get k f.directs)) domain

  -- Add, with SetIfAbsent written out.
  unfoldable pub add : Bytes → Bytes → Filter → Filter
  add domain addr f =
      let domain = hostname domain in
      if match_direct f domain || match_proxy f domain then f else elim (Items.get domain f.cache) [
        | some _ ↦ f
        | none ↦ record f {
          cache =
              Items.put domain
                (record {
                  addr = addr;
                  success_count = 0;
                  failure_count = 0;
                  last_active_time = pos 0;
                })
                f.cache;
        }
      ]

  -- IsProxy for an item of the cache.
  unfoldable pub of_item : ℤ → Filter → Item → Answer
  of_item now f item = elim f.mode [
    | direct ↦ record { proxied = false; in_map = true; failures = 0; successes = 0 }
    | proxy ↦ record { proxied = true; in_map = true; failures = 0; successes = 0 }
    | intelligent ↦ record {
      proxied = judge now f.alive_threshold item;
      in_map = true;
      failures = item.failure_count;
      successes = item.success_count;
    }
  ]

  -- IsProxy, at the time `now`.
  unfoldable pub is_proxy : ℤ → Bytes → Filter → Answer
  is_proxy now domain f =
      let domain = hostname domain in
      if match_proxy f domain
      then record { proxied = true; in_map = true; failures = 0; successes = 0 }
      else if match_direct f domain
      then record { proxied = false; in_map = true; failures = 0; successes = 0 }
      else elim (Items.get domain f.cache) [
        | none ↦ record { proxied = true; in_map = false; failures = 0; successes = 0 }
        | some item ↦ of_item now f item
      ]

  -- The turn of run for one domain of the cache, with the item that was read at its start.
  unfoldable pub liveness_turn : ℤ → Bool → Bytes → Item → Filter → Filter
  liveness_turn now outcome domain item f =
      if is_need_liveness_probe now f.success_threshold f.failure_threshold f.alive_threshold item
      then record f { cache = Items.put domain (probed now f.alive_threshold outcome item) f.cache }
      else f

  -- The loop of loadfile2ConcurrentMap over the lines, with the count so far.
  pub load_lines : List Bytes → ℕ → Hosts.carrier → ℕ × Hosts.carrier
  load_lines [] n m = (n, m)
  load_lines (l ∷ ls) n m =
      let line = trim_left (trim_right l) in
      elim (length line == 0) [
        | true ↦ load_lines ls n m
        | false ↦ load_lines ls (n + 1) (Hosts.put line tt m)
      ]

  -- LoadProxyFile and LoadDirectFile, on the contents of a file that could be read.
  pub load_proxy_file : Bytes → Filter → ℕ × Filter
  load_proxy_file contents f =
      let r = load_lines (lines contents) 0 f.proxies in (r.0, record f { proxies = r.1 })

  pub load_direct_file : Bytes → Filter → ℕ × Filter
  load_direct_file contents f =
      let r = load_lines (lines contents) 0 f.directs in (r.0, record f { directs = r.1 })
