-- ===== src/LoadBalance/Tests.antt =====
-- The theorems about the backends and the selectors at a pool of two.
use jocasta.Prelude.{ℕ, ◌+◌, ◌^◌, ◌-◌, ◌≡◌, refl, true, false, Option, none, some, [], ◌∷◌, arith}
use jocasta.Prelude.Int.{ℤ, pos, ◌<ℤ◌}
use jocasta.Go.Result.{ok}
use jocasta.LoadBalance.Samples.{up, down, two}
use jocasta.LoadBalance.Upstream.{Upstream, available, healthy, full, conns_count}
use jocasta.LoadBalance.Upstream.Health.{run, healthy-run_up}
use jocasta.LoadBalance.Cycle.{First, found}
use jocasta.LoadBalance.RoundRobin.{round_robin_select}
use jocasta.LoadBalance.RoundRobin.Turn.{
  counter, round_robin_select-First, round_robin_select_wraps,
}
use jocasta.LoadBalance.Least.{least_conn_select}
use jocasta.LoadBalance.Least.Minimal.{LeastChoice, least_conn_select-LeastChoice}
use jocasta.LoadBalance.Weight.{Weight, new_weight, weight_select}
use jocasta.LoadBalance.Weight.Select.{weight_select_finds}
use jocasta.LoadBalance.Weight.Finds.{IsGcdx}

abbrev zeros : ℕ → ℕ
zeros k = 0

-- A divisor function: the first argument will do.
abbrev fst : ℤ → ℤ → ℤ
fst a b = a

fst-IsGcdx : IsGcdx fst
fst-IsGcdx a b ha ia hb ib = (ha, ia)

up_available : available up ≡ true
unfolding available healthy full
up_available = refl

down_available : available down ≡ false
unfolding available healthy full
down_available = refl

healthy-run_up_example :
    healthy
      (run ((false, pos 5) ∷ (true, pos 5) ∷ (false, pos 5) ∷ []) (record up { failure_count = 0 }))
    ≡ true
healthy-run_up_example =
    healthy-run_up ((false, pos 5) ∷ (true, pos 5) ∷ (false, pos 5) ∷ [])
      (record up { failure_count = 0 }) (record { up = refl; settled = omega arith }) (omega arith)
      (omega arith) (omega arith, (omega arith, tt))

round_robin_select-First_example :
    (r : Option (Upstream × ℕ)) × First two 1 2 r
    × (round_robin_select two 0 ≡ ok (found r, counter (0 + 2) r))
round_robin_select-First_example = round_robin_select-First two 0 (omega arith)

round_robin_select_wraps_example :
    round_robin_select (down ∷ down ∷ up ∷ []) (2 ^ 32 - 2) ≡ ok (none, 1)
round_robin_select_wraps_example =
    round_robin_select_wraps down down up down_available down_available

least_conn_select-LeastChoice_example : LeastChoice conns_count two (least_conn_select zeros two)
least_conn_select-LeastChoice_example =
    least_conn_select-LeastChoice zeros two ((λ _. omega arith), ((λ _. omega arith), tt))

weight_select_finds_example :
    (v : Upstream) × (s' : Weight) × (weight_select fst (up ∷ up ∷ []) new_weight ≡ ok (some v, s'))
weight_select_finds_example =
    weight_select_finds fst fst-IsGcdx (up ∷ up ∷ []) new_weight up 1 refl
      ((omega arith, omega arith), ((omega arith, omega arith), tt)) refl
      (omega arith, (omega arith, tt)) up_available (omega arith, omega arith)

light : available down ≡ true → down.weight <ℤ down.weight
light a = absurd (cc down_available)
