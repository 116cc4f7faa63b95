-- ===== src/Mux/Bridge/Swept.antt =====
-- services/mux/bridge.go and connection/manager.go: a session that the ticker takes off the table.
use jocasta.Prelude.{ℕ, ◌≡◌, refl, true, false}
use jocasta.Prelude.Int.{ℤ}
use jocasta.Go.Io.{Bytes}
use jocasta.Go.Net.{bytes_eq_refl}
use jocasta.Connection.Manager.{SharedMap}
use jocasta.Mux.Bridge.{Bridge, again, attempt, opened, take_client, turn}

module _ (Conns : SharedMap ℕ) where
  -- If the ticker's loop has seen a closed session under a secret key and a client node joins with this key
  -- before the loop removes it, the new session is taken off the table, and a stream that asks for the key
  -- does not find it.
  pub turn-take_client :
      (now : ℤ) (sk : Bytes) (i : ℕ) (b : Bridge Conns)
      → ((take_client Conns sk b).store.session i).closed ≡ true
      → attempt Conns sk false opened (turn Conns now sk i (take_client Conns sk b)) ≡ again
  unfolding attempt turn take_client
  turn-take_client now sk i b gone =
      rw (gone, Conns.get_remove sk sk (Conns.set sk b.store.made b.clients), bytes_eq_refl sk) refl
