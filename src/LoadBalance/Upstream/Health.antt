-- ===== src/LoadBalance/Upstream/Health.antt =====
-- The health of a backend over a history of probes: it changes on a run of like outcomes as long as
-- the threshold, and on nothing shorter.
use jocasta.Prelude.{
  ℕ, suc, ◌+◌, ◌^◌, ◌≤◌, ◌<◌, ◌≡◌, refl, Bool, true, false, List, [], ◌∷◌, length, arith, leb,
  if◌then◌else◌,
}
use jocasta.Prelude.Int.{ℤ}
use jocasta.LoadBalance.Upstream.{Upstream, healthy, record_probe}

-- A history: each outcome with the time that its probe took.
abbrev pub History : Type 0
History = List (Bool × ℤ)

unfoldable pub run : History → Upstream → Upstream
run [] u = u
run ((outcome, elapsed) ∷ os) u = run os (record_probe outcome elapsed u)

-- With `k` outcomes of the kind `b` behind, no run of them reaches `t`.
abbrev pub ShortRuns : Bool → ℕ → ℕ → History → Type 0
ShortRuns b t k [] = Unit {0}
ShortRuns true t k ((true, _) ∷ os) = (suc k < t) × ShortRuns true t (suc k) os
ShortRuns true t k ((false, _) ∷ os) = ShortRuns true t 0 os
ShortRuns false t k ((false, _) ∷ os) = (suc k < t) × ShortRuns false t (suc k) os
ShortRuns false t k ((true, _) ∷ os) = ShortRuns false t 0 os

-- A backend that went up, or down, and whose other counter starts from nothing at the next probe
-- of its own kind.
pub record IsUp (u : Upstream) : Type 0 where
  pub up : u.health ≡ 1
  pub settled : u.success_threshold ≤ u.success_count

pub record IsDown (u : Upstream) : Type 0 where
  pub down : u.health ≡ 0
  pub settled : u.failure_threshold ≤ u.failure_count

module _ (u : Upstream) (d : ℤ) where
  -- The four ways in which one probe goes, while no counter wraps.
  success_counted :
      suc u.success_count < 2 ^ 32
      → suc u.success_count < u.success_threshold
      → record_probe true d u ≡ record u { least_time = d; success_count = suc u.success_count }
  unfolding record_probe
  success_counted h t = ground arith

  success_reached :
      suc u.success_count < 2 ^ 32
      → u.success_threshold ≤ suc u.success_count
      → record_probe true d u ≡ record u {
        least_time = d;
        success_count = suc u.success_count;
        failure_count = 0;
        health = 1;
      }
  unfolding record_probe
  success_reached h t = ground arith

  failure_counted :
      suc u.failure_count < 2 ^ 32
      → suc u.failure_count < u.failure_threshold
      → record_probe false d u ≡ record u { least_time = d; failure_count = suc u.failure_count }
  unfolding record_probe
  failure_counted h t = ground arith

  failure_reached :
      suc u.failure_count < 2 ^ 32
      → u.failure_threshold ≤ suc u.failure_count
      → record_probe false d u ≡ record u {
        least_time = d;
        failure_count = suc u.failure_count;
        success_count = 0;
        health = 0;
      }
  unfolding record_probe
  failure_reached h t = ground arith

-- A backend that is up stays healthy while no run of failures reaches the failure threshold. The
-- history is shorter than the 2^32 probes after which a counter wraps.
pub healthy-run_up :
    (os : History) (u : Upstream)
    → IsUp u
    → u.success_count + length os < 2 ^ 32
    → u.failure_threshold < 2 ^ 32
    → ShortRuns false u.failure_threshold u.failure_count os
    → healthy (run os u) ≡ true
unfolding run
healthy-run_up [] u i h t r = unfold healthy in ground arith
healthy-run_up ((true, d) ∷ os) u i h t r =
    rw (success_reached u d (omega arith) (omega arith))
      (healthy-run_up os _ (record { up = refl; settled = omega arith }) (omega arith) t r)
healthy-run_up ((false, d) ∷ os) u i h t r =
    rw (failure_counted u d (omega arith) (omega arith))
      (healthy-run_up os _ (record { up = i.up; settled = i.settled }) (omega arith) t r.1)

-- A backend that is down stays so while no run of successes reaches the success threshold, in a
-- history that is too short for a counter to wrap.
pub healthy-run_down :
    (os : History) (u : Upstream)
    → IsDown u
    → u.failure_count + length os < 2 ^ 32
    → u.success_threshold < 2 ^ 32
    → ShortRuns true u.success_threshold u.success_count os
    → healthy (run os u) ≡ false
unfolding run
healthy-run_down [] u i h t r = unfold healthy in ground arith
healthy-run_down ((false, d) ∷ os) u i h t r =
    rw (failure_reached u d (omega arith) (omega arith))
      (healthy-run_down os _ (record { down = refl; settled = omega arith }) (omega arith) t r)
healthy-run_down ((true, d) ∷ os) u i h t r =
    rw (success_counted u d (omega arith) (omega arith))
      (healthy-run_down os _ (record { down = i.down; settled = i.settled }) (omega arith) t r.1)

-- A run of like outcomes, given by the times that the probes took.
abbrev pub all_of : Bool → List ℤ → History
all_of b [] = []
all_of b (d ∷ ds) = (b, d) ∷ all_of b ds

-- After a run of failures a backend is unhealthy if its failures have reached the threshold, and as
-- healthy as before if not, provided that the counter does not wrap.
pub healthy-run_failures :
    (d : ℤ) (ds : List ℤ) (u : Upstream)
    → u.failure_count + length (d ∷ ds) < 2 ^ 32
    → healthy (run (all_of false (d ∷ ds)) u)
      ≡ (if leb u.failure_threshold (u.failure_count + length (d ∷ ds)) then false else healthy u)
unfolding run record_probe healthy
healthy-run_failures d [] u h = ground arith
healthy-run_failures d (d' ∷ ds) u h =
    ground (arith, healthy-run_failures d' ds (record_probe false d u))

-- After a run of successes a backend is healthy if its successes have reached the threshold, and as
-- healthy as before if not, provided that the counter does not wrap.
pub healthy-run_successes :
    (d : ℤ) (ds : List ℤ) (u : Upstream)
    → u.success_count + length (d ∷ ds) < 2 ^ 32
    → healthy (run (all_of true (d ∷ ds)) u)
      ≡ (if leb u.success_threshold (u.success_count + length (d ∷ ds)) then true else healthy u)
unfolding run record_probe healthy
healthy-run_successes d [] u h = ground arith
healthy-run_successes d (d' ∷ ds) u h =
    ground (arith, healthy-run_successes d' ds (record_probe true d u))
