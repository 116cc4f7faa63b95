-- ===== src/Filter/Tests.antt =====
-- The theorems about the filter, with maps as functions and the domain "a.b".
use jocasta.Prelude.{◌≡◌, ◌↔◌, refl, true, false, none, [], ◌∷◌, length, leb}
use jocasta.Prelude.Int.{pos, ltb_ℤ, ◌-ℤ◌}
use jocasta.Go.Io.{Bytes}
use jocasta.Go.Net.{bytes_eq}
use jocasta.Go.HostPort.{split_host_port}
use jocasta.Filter.{Item, Filter, intelligent, hostname, split, match}
use jocasta.Filter.FunctionMap.{function_map}
use jocasta.Filter.Labels.{IsListed, match-IsListed}

abbrev domain : Bytes
domain = 97 ∷ 46 ∷ 98 ∷ []

abbrev other : Bytes
other = 99 ∷ 46 ∷ 98 ∷ []

abbrev filter : Filter (function_map Item) (function_map (Unit {0}))
filter = record {
  mode = intelligent;
  cache = λ k. none;
  proxies = λ k. none;
  directs = λ k. none;
  success_threshold = 3;
  failure_threshold = 3;
  alive_threshold = pos 1800;
}

abbrev item : Item
item = record { addr = domain; success_count = 3; failure_count = 0; last_active_time = pos 100 }

match-IsListed_example : (match (bytes_eq domain) domain ≡ true) ↔ (
    (leb (length (split (hostname domain))) 1 ≡ false)
    × IsListed (bytes_eq domain) (split (hostname domain)))
match-IsListed_example = match-IsListed (bytes_eq domain) domain

apart : bytes_eq (hostname domain) (hostname other) ≡ false
unfolding bytes_eq hostname split_host_port
apart = refl

stale : ltb_ℤ (pos 1800) (pos 5000 -ℤ pos 100) ≡ true
unfolding ◌-ℤ◌
stale = refl
