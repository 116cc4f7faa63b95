-- ===== src/Mux/Bridge/Newest.antt =====
-- services/mux/bridge.go: the session that a stream finds right behind a client node.
use mathlib.Core.Path.{subst}
use jocasta.Prelude.{ℕ, ◌≡◌, refl, false}
use jocasta.Go.Io.{Bytes}
use jocasta.Go.Net.{bytes_eq_refl}
use jocasta.Connection.Manager.{SharedMap}
use jocasta.Mux.Bridge.{Store, Bridge, opened, bound, attempt, add, close_old, take_client}
use jocasta.Mux.Bridge.Sound.{Ages, close_old-Ages, add_new, joined}

module _ (Conns : SharedMap ℕ) where
  -- A stream of a server node that comes right behind a client node with its secret key.
  pub attempt-take_client :
      (sk : Bytes) (b : Bridge Conns)
      → attempt Conns sk false opened (take_client Conns sk b) ≡ bound b.store.made
  unfolding attempt take_client
  attempt-take_client sk b =
      let s : Store = close_old Conns (Conns.get sk b.clients) b.store in
      let aged : Ages b.store s = close_old-Ages Conns (Conns.get sk b.clients) b.store in
      let here : (add (joined sk) s).session b.store.made ≡ joined sk =
        subst (λ (n : ℕ). (add (joined sk) s).session n ≡ joined sk) aged.1
          (add_new (joined sk) s) in
      rw (attempt, Conns.get_set sk sk b.store.made b.clients, bytes_eq_refl sk, here) refl
