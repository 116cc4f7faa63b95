-- ===== src/Filter/Probes.antt =====
-- The counters of an item, the probes that it needs and the answers of IsProxy.
use jocasta.Prelude.{ℕ, ◌≡◌, refl, ◌&&◌, not, Bool, true, false, arith}
use jocasta.Prelude.Int.{ℤ, ltb_ℤ, ◌-ℤ◌}
use jocasta.Filter.{Item, is_need_liveness_probe, probed, judge}

-- An item that needs no probe is not proxied: it has succeeded more often than failed, and recently.
pub judge-is_need_liveness_probe :
    (now : ℤ) (success_threshold failure_threshold : ℕ) (alive_threshold : ℤ) (item : Item)
    → is_need_liveness_probe now success_threshold failure_threshold alive_threshold item ≡ false
    → judge now alive_threshold item ≡ false
unfolding is_need_liveness_probe judge
judge-is_need_liveness_probe now success_threshold failure_threshold alive_threshold item h =
    ground (arith)

-- A probe of an item that was not active for longer than the threshold starts its counts again: the
-- item is proxied afterwards if and only if the probe failed, and until the threshold has passed.
pub judge-probed_stale :
    (now later alive_threshold : ℤ) (outcome : Bool) (item : Item)
    → ltb_ℤ alive_threshold (now -ℤ item.last_active_time) ≡ true
    → judge later alive_threshold (probed now alive_threshold outcome item)
      ≡ (not outcome && ltb_ℤ (later -ℤ now) alive_threshold)
unfolding judge probed
judge-probed_stale now later alive_threshold true item h = rw (judge, probed, h) refl
judge-probed_stale now later alive_threshold false item h = rw (judge, probed, h) refl
