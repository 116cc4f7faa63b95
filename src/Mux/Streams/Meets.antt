-- ===== src/Mux/Streams/Meets.antt =====
-- services/mux: the two kinds of nodes on the two ends of a stream.
use jocasta.Prelude.{
  ℕ, Option, length, ◌<◌, ◌%◌, ◌^◌, ◌≡◌, refl, Bool, true, false, some, [], ◌∷◌, ◌++◌,
  if◌then◌else◌, arith,
}
use jocasta.Go.Result.{ok}
use jocasta.Go.Io.{Bytes, ReadError, over}
use jocasta.Go.HostPort.{join_host_port, has_byte}
use jocasta.Go.Conn.{fresh_conn, write}
use jocasta.Socks5.Packet.{itoa}
use jocasta.Through.{Codec, handshake_request_bytes}
use jocasta.Through.RoundTrip.{handshake_request_back}
use jocasta.Mux.Route.{Route, parse_route, scheme, parse_route_lem}
use jocasta.Mux.Streams.{tcp, udp, Hand, is_udp, hand_request, dial_through_remote, local_target}

chosen : (b : Bool) → is_udp (if b then udp else tcp) ≡ b
chosen true = refl
chosen false = refl

module _ (codec : Codec Hand)
    (undoes : (m : Hand) (x : Bytes) → codec.marshal m ≡ some x → codec.unmarshal x ≡ some m) where
  target_meets :
      (id : Bytes) (cfg : Route) (session_id bs ys : Bytes) (e : ReadError)
      → cfg.remote_port < 2 ^ 16
      → handshake_request_bytes codec (hand_request id cfg session_id) ≡ ok bs
      → local_target codec (over (bs ++ ys) e)
        ≡ some (cfg.is_udp, join_host_port cfg.remote_host (itoa cfg.remote_port))
  unfolding local_target hand_request
  target_meets id cfg session_id bs ys e small f =
      let whole : cfg.remote_port % 2 ^ 32 ≡ cfg.remote_port = omega arith in
      rw
        (
          local_target,
          handshake_request_back codec undoes (hand_request id cfg session_id) bs ys e f,
        )
        (rw (chosen cfg.is_udp, whole) refl)

  -- A server node whose route is a scheme, a local address without a slash and without an at sign, an at sign
  -- and a remote address without one, both not empty, has this route from its configuration, if SplitHostPort
  -- splits the remote address. What it then writes to a new stream, if the message can be written, makes the
  -- client node at the other end go on over UDP exactly if the scheme is udp://, and to the host and the port
  -- of the remote address, whatever follows on the stream and whatever the id of the session is. Unmarshal is
  -- to undo Marshal, and the port a uint16.
  pub streams_meet :
      (split_host_port : Bytes → Option (Bytes × ℕ)) (over_udp : Bool)
      (local remote host id session_id bs ys : Bytes) (port : ℕ) (e : ReadError)
      → 0 < length local
      → has_byte b'/' local ≡ false
      → has_byte b'@' local ≡ false
      → 0 < length remote
      → has_byte b'@' remote ≡ false
      → split_host_port remote ≡ some (host, port)
      → port < 2 ^ 16
      → handshake_request_bytes codec (
          hand_request id
            (record { is_udp = over_udp; local = local; remote_host = host; remote_port = port })
            session_id)
        ≡ ok bs
      → (cfg : Route) × (parse_route split_host_port (scheme over_udp ++ (local ++ (b'@' ∷ remote)))
          ≡ ok cfg)
        × (dial_through_remote codec id cfg session_id (fresh_conn [] 1)
            ≡ (ok tt, record { pending = []; room = 0; written = bs ∷ [] }))
        × (local_target codec (over (bs ++ ys) e)
            ≡ some (over_udp, join_host_port host (itoa port)))
  unfolding dial_through_remote write
  streams_meet split_host_port over_udp local remote host id session_id bs ys port e n slash at1 m
        at2 known small f =
      let cfg : Route = record {
        is_udp = over_udp;
        local = local;
        remote_host = host;
        remote_port = port;
      } in
      (
        cfg,
        parse_route_lem split_host_port over_udp local remote host port n slash at1 m at2 known,
        rw (dial_through_remote, f) refl,
        target_meets id cfg session_id bs ys e small f,
      )
