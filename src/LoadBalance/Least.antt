-- ===== src/LoadBalance/Least.antt =====
-- core/loadbalance/selector.go: LeastConn and LeastTime, which differ in what they measure.
pub mod Minimal
pub mod Safe
use jocasta.Prelude.{
  ℕ, zero, suc, ◌+◌, ◌%◌, ◌||◌, true, false, Option, none, some, [], ◌∷◌, ◌==◌, if◌then◌else◌,
}
use jocasta.Prelude.Int.{ℤ, pos, negsuc, ltb_ℤ, eqb_ℤ}
use jocasta.LoadBalance.Upstream.{Upstream, available, conns_count, latest_time}
use jocasta.LoadBalance.Pool.{Pool}

-- The variables of the loop, and how many random numbers it has drawn.
pub record Search : Type 0 where
  pub min : ℤ
  pub count : ℕ
  pub best : Option Upstream
  pub drawn : ℕ

-- One turn of the loop, on an available backend with the measure `m`.
consider : (ℕ → ℕ) → Upstream → ℤ → Search → Search
consider rand b m s =
    let lowered =
      if eqb_ℤ s.min (negsuc 0) || ltb_ℤ m s.min then record s { min = m; count = 0 } else s in
    if eqb_ℤ m lowered.min
    then record lowered {
      count = suc lowered.count;
      best = if rand s.drawn % suc lowered.count == 0 then some b else s.best;
      drawn = suc s.drawn;
    }
    else lowered

least_loop : (Upstream → ℤ) → (ℕ → ℕ) → Pool → Search → Option Upstream
unfolding consider
least_loop measure rand [] s = s.best
least_loop measure rand (b ∷ us) s =
    least_loop measure rand us (if available b then consider rand b (measure b) s else s)

abbrev pub start : Search
start = record { min = negsuc 0; count = 0; best = none; drawn = 0 }

-- (LeastConn).Select
unfoldable pub least_conn_select : (ℕ → ℕ) → Pool → Option Upstream
unfolding least_loop
least_conn_select rand us = least_loop conns_count rand us start

-- (LeastTime).Select
unfoldable pub least_time_select : (ℕ → ℕ) → Pool → Option Upstream
unfolding least_loop
least_time_select rand us = least_loop latest_time rand us start
