-- ===== src/Mux/Bridge/Runs.antt =====
-- services/mux/bridge.go: what every run of the bridge keeps.
use jocasta.Prelude.{
  ℕ, ◌≡◌, Bool, true, false, some, inl, inr, List, [], ◌∷◌, ◌==◌, arith, Bool-cases,
}
use jocasta.Prelude.Int.{ℤ}
use jocasta.Go.Result.{Result-cases}
use jocasta.Go.Io.{Bytes}
use jocasta.Go.Net.{bytes_eq, bytes_eq_sound}
use jocasta.Connection.Manager.{SharedMap}
use jocasta.Through.{Codec, NegotiateRequest, parse_negotiate_request, types_client, types_server}
use jocasta.Mux.Bridge.{
  Nego, Store, Bridge, Incoming, close_at, take, handler, server_ends, lost, turn, close_all, stop,
}
use jocasta.Mux.Bridge.Sound.{
  Ages, Ages-refl, Ages-trans, close_at-Ages, IsListed, IsKept, IsSound, Ages-IsSound,
  take_client-IsSound, take_server-IsSound,
}

module _ (Conns : SharedMap ℕ) (strict : Bool) where
  -- What any part of the program can do next, in any order: a connection comes in, the loop of a server
  -- node ends, a session ends from the other side, the loop of a tick does a turn, the bridge stops. A turn
  -- is for an entry as it was when the tick began. A session that is closed stays so, so the turn stands at
  -- the moment of the removal, wherever the test before it was. In the strict case the entry that is removed
  -- is still the one that the loop has seen.
  pub data Step (codec : Codec Nego) (b : Bridge Conns) : Bridge Conns → Type 0 where
    handled : (c : Incoming) → Step codec b (handler Conns codec c b).1
    ended : (addr : Bytes) (i : ℕ) → Step codec b (server_ends Conns addr i b)
    dropped : (i : ℕ) → Step codec b (lost Conns i b)
    turned :
        (now : ℤ) (k : Bytes) (i : ℕ)
        → (strict ≡ true → Conns.get k b.clients ≡ some i)
        → Step codec b (turn Conns now k i b)
    stopped : Step codec b (stop Conns b)

  pub data Reachable (codec : Codec Nego) : Bridge Conns → Type 0 where
    start :
        (s : Store)
        → Reachable codec
            (record { store = record s { made = 0 }; clients = Conns.empty; servers = Conns.empty })
    next : {b c : Bridge Conns} → Reachable codec b → Step codec b c → Reachable codec c

  abbrev Sound : Bridge Conns → Type 0
  Sound b = IsSound Conns strict b.store b.clients

  take-Sound :
      (c : Incoming) (r : NegotiateRequest Nego) (b : Bridge Conns)
      → Sound b
      → Sound (take Conns c r b).1
  unfolding take
  take-Sound c r b h = elim (Bool-cases (r.types == types_server)) [
    | inl t ↦ elim (Bool-cases c.makes) [
      | inl m ↦ rw (t, m) (take_server-IsSound Conns strict c.addr b h)
      | inr m ↦ rw (t, m) h
    ]
    | inr f ↦ elim (Bool-cases (r.types == types_client)) [
      | inl t ↦ elim (Bool-cases c.makes) [
        | inl m ↦ rw (f, t, m) (take_client-IsSound Conns strict r.nego.secret_key b h)
        | inr m ↦ rw (f, t, m) h
      ]
      | inr g ↦ rw (f, g) h
    ]
  ]

  handler-Sound :
      (codec : Codec Nego) (c : Incoming) (b : Bridge Conns)
      → Sound b
      → Sound (handler Conns codec c b).1
  unfolding handler
  handler-Sound codec c b h = elim (Result-cases (parse_negotiate_request codec c.reader)) [
    | inl p ↦ rw (handler, p.1) (take-Sound c p.0.0 b h)
    | inr (inl p) ↦ rw (handler, p.1) h
    | inr (inr p) ↦ rw (handler, p) h
  ]

  -- What a turn removes is closed.
  removed-IsSound :
      (k : Bytes) (i : ℕ) (s : Store) (m : Conns.carrier)
      → (strict ≡ true → Conns.get k m ≡ some i)
      → (s.session i).closed ≡ true
      → IsSound Conns strict s m
      → IsSound Conns strict s (Conns.remove k m)
  removed-IsSound k i s m seen gone h = (
    λ j n e. h.0 j n (ground (arith, Conns.get_remove j k m)),
    λ y n lt role live. elim (Bool-cases (bytes_eq k (s.session n).key)) [
      | inl same ↦
          let here : Conns.get k m ≡ some n =
            rw (bytes_eq_sound k (s.session n).key same) (h.1 y n lt role live) in
          let it : i ≡ n = ground (arith, seen y) in
          let open_i : (s.session i).closed ≡ false = rw it live in cc
      | inr other ↦ rw (Conns.get_remove (s.session n).key k m, other) (h.1 y n lt role live)
    ],
  )

  turn-Sound :
      (now : ℤ) (k : Bytes) (i : ℕ) (b : Bridge Conns)
      → (strict ≡ true → Conns.get k b.clients ≡ some i)
      → Sound b
      → Sound (turn Conns now k i b)
  unfolding turn
  turn-Sound now k i b seen h = elim (Bool-cases (b.store.session i).closed) [
    | inr e ↦ rw e h
    | inl e ↦ rw e (
        Ages-IsSound Conns strict b.store (close_at i b.store) (Conns.remove k b.clients)
          (close_at-Ages i b.store) (removed-IsSound k i b.store b.clients seen e h))
  ]

  close_all-Ages : (es : List (Bytes × ℕ)) (s : Store) → Ages s (close_all Conns es s)
  unfolding close_all
  close_all-Ages [] s = Ages-refl s
  close_all-Ages ((k, i) ∷ es) s =
      Ages-trans s (close_at i s) (close_all Conns es (close_at i s)) (close_at-Ages i s)
        (close_all-Ages es (close_at i s))

  stop-Sound : (b : Bridge Conns) → Sound b → Sound (stop Conns b)
  unfolding stop
  stop-Sound b h =
      let s : Store = close_all Conns (Conns.items b.clients) b.store in
      Ages-IsSound Conns strict b.store (close_all Conns (Conns.items b.servers) s) b.clients
        (Ages-trans b.store s (close_all Conns (Conns.items b.servers) s)
          (close_all-Ages (Conns.items b.clients) b.store)
          (close_all-Ages (Conns.items b.servers) s))
        h

  Step-Sound : {codec : Codec Nego} {b c : Bridge Conns} → Step codec b c → Sound b → Sound c
  Step-Sound {codec} {b} (handled c) h = handler-Sound codec c b h
  Step-Sound {codec} {b} (ended addr i) h =
      unfold server_ends in
      Ages-IsSound Conns strict b.store (close_at i b.store) b.clients (close_at-Ages i b.store) h
  Step-Sound {codec} {b} (dropped i) h =
      unfold lost in
      Ages-IsSound Conns strict b.store (close_at i b.store) b.clients (close_at-Ages i b.store) h
  Step-Sound {codec} {b} (turned now k i seen) h = turn-Sound now k i b seen h
  Step-Sound {codec} {b} stopped h = stop-Sound b h

  -- In every state that the bridge reaches, wherever the turns of the ticker's loop fall, an entry of the
  -- clients' table is the session of a client node with the entry's secret key; and if no turn has removed an
  -- entry that changed since the loop had seen it, every session of a client node that is open is in the
  -- table under its key, so that no key has two open sessions.
  pub Reachable-IsSound :
      {codec : Codec Nego} {b : Bridge Conns}
      → Reachable codec b
      → IsListed Conns b.store b.clients × (strict ≡ true → IsKept Conns b.store b.clients)
  Reachable-IsSound (start s) = (
    λ k i e. absurd (ground (arith, Conns.get_empty k)),
    λ y i lt role live. absurd (omega arith),
  )
  Reachable-IsSound (next r step) = Step-Sound step (Reachable-IsSound r)
