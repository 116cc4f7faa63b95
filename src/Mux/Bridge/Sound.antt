-- ===== src/Mux/Bridge/Sound.antt =====
-- services/mux/bridge.go: what the parts of the bridge keep of its sessions.
use mathlib.Core.Path.{subst}
use jocasta.Prelude.{
  ℕ, suc, ◌<◌, ◌≡◌, refl, sym, ◌∙◌, ap, Bool, true, false, Option, none, some, inl, inr, ◌==◌,
  arith, Bool-cases, le_or_lt,
}
use jocasta.Go.Io.{Bytes}
use jocasta.Go.Net.{bytes_eq, bytes_eq_sound, bytes_eq_refl}
use jocasta.Connection.Manager.{SharedMap}
use jocasta.Mux.Bridge.{
  client, server, Session, Store, Bridge, close_at, add, close_old, take_server, take_client,
}

-- A store with the same sessions, of which more may be closed.
abbrev pub Ages : Store → Store → Type 0
Ages s t =
    ((j : ℕ)
      → ((t.session j).role ≡ (s.session j).role)
        × ((t.session j).key ≡ (s.session j).key)
        × ((t.session j).closed ≡ false → (s.session j).closed ≡ false))
    × (t.made ≡ s.made)

pub Ages-refl : (s : Store) → Ages s s
Ages-refl s = (λ j. (refl, refl, λ h. h), refl)

pub Ages-trans : (s t u : Store) → Ages s t → Ages t u → Ages s u
Ages-trans s t u h k =
    (λ j. ((k.0 j).0 ∙ (h.0 j).0, (k.0 j).1 ∙ (h.0 j).1, λ e. (h.0 j).2 ((k.0 j).2 e)), k.1 ∙ h.1)

pub close_at-Ages : (i : ℕ) (s : Store) → Ages s (close_at i s)
unfolding close_at
close_at-Ages i s = (
  λ j. elim (Bool-cases (i == j)) [
    | inl e ↦ rw e (refl, refl, λ h. cc)
    | inr e ↦ rw e (refl, refl, λ h. h)
  ],
  refl,
)

close_at-closed : (i : ℕ) (s : Store) → ((close_at i s).session i).closed ≡ true
unfolding close_at
close_at-closed i s = ground arith

pub add_new : (new : Session) (s : Store) → (add new s).session s.made ≡ new
unfolding add
add_new new s = ground arith

add_old : (new : Session) (s : Store) (i : ℕ) → i < s.made → (add new s).session i ≡ s.session i
unfolding add
add_old new s i lt = ground arith

add_made : (new : Session) (s : Store) → (add new s).made ≡ suc s.made
unfolding add
add_made new s = refl

abbrev pub joined : Bytes → Session
joined sk = record { role = client; key = sk; closed = false }

abbrev served : Bytes → Session
served addr = record { role = server; key = addr; closed = false }

module _ (Conns : SharedMap ℕ) where
  pub close_old-Ages : (o : Option ℕ) (s : Store) → Ages s (close_old Conns o s)
  unfolding close_old
  close_old-Ages none s = Ages-refl s
  close_old-Ages (some i) s = close_at-Ages i s

  -- An entry of the clients' table is a session of a client node with the entry's key.
  abbrev pub IsListed : Store → Conns.carrier → Type 0
  IsListed s m =
      (k : Bytes) (i : ℕ)
      → Conns.get k m ≡ some i
      → (i < s.made) × ((s.session i).role ≡ client) × ((s.session i).key ≡ k)

  -- A session of a client node that is open is the one in the table under its key.
  abbrev pub IsKept : Store → Conns.carrier → Type 0
  IsKept s m =
      (i : ℕ)
      → i < s.made
      → (s.session i).role ≡ client
      → (s.session i).closed ≡ false
      → Conns.get (s.session i).key m ≡ some i

module _ (Conns : SharedMap ℕ) (strict : Bool) where
  -- The second part is only asked for in the strict case.
  abbrev pub IsSound : Store → Conns.carrier → Type 0
  IsSound s m = IsListed Conns s m × (strict ≡ true → IsKept Conns s m)

  pub Ages-IsSound : (s t : Store) (m : Conns.carrier) → Ages s t → IsSound s m → IsSound t m
  Ages-IsSound s t m a h = (
    λ k i e. let (lt, role, key) = h.0 k i e in (rw a.1 lt, (a.0 i).0 ∙ role, (a.0 i).1 ∙ key),
    λ y i lt role live.
        rw (a.0 i).1
          (h.1 y i (subst (λ (n : ℕ). i < n) a.1 lt) (sym (a.0 i).0 ∙ role) ((a.0 i).2 live)),
  )

  -- A new session of a client node, where no other one of its key is open.
  added-IsSound :
      (sk : Bytes) (s : Store) (m : Conns.carrier)
      → (strict ≡ true
          → (i : ℕ) → i < s.made
          → (s.session i).role ≡ client
          → (s.session i).closed ≡ false
          → bytes_eq sk (s.session i).key ≡ false)
      → IsSound s m
      → IsSound (add (joined sk) s) (Conns.set sk s.made m)
  added-IsSound sk s m alone h = (
    λ k i e. elim (Bool-cases (bytes_eq sk k)) [
      | inl same ↦
          let here : s.made ≡ i = ground (arith, Conns.get_set k sk s.made m) in
          let is : (add (joined sk) s).session i ≡ joined sk =
            subst (λ (j : ℕ). (add (joined sk) s).session j ≡ joined sk) here
              (add_new (joined sk) s) in
          (
            ground (arith, add_made (joined sk) s),
            ap (λ x. x.role) is,
            ap (λ x. x.key) is ∙ bytes_eq_sound sk k same,
          )
      | inr other ↦
          let old : Conns.get k m ≡ some i = ground (arith, Conns.get_set k sk s.made m) in
          let (lt, role, key) = h.0 k i old in
          let is = add_old (joined sk) s i lt in
          (
            ground (arith, add_made (joined sk) s),
            ap (λ x. x.role) is ∙ role,
            ap (λ x. x.key) is ∙ key,
          )
    ],
    λ y i lt role live. elim (le_or_lt s.made i) [
      | inl ge ↦
          let here : s.made ≡ i = ground (arith, add_made (joined sk) s) in
          subst
            (λ (j : ℕ).
              Conns.get ((add (joined sk) s).session j).key (Conns.set sk s.made m) ≡ some j)
            here (rw (add_new (joined sk) s, Conns.get_set sk sk s.made m, bytes_eq_refl sk) refl)
      | inr old ↦
          let is = add_old (joined sk) s i old in
          let was = sym (ap (λ x. x.role) is) ∙ role in
          let lives = sym (ap (λ x. x.closed) is) ∙ live in
          rw (is, Conns.get_set (s.session i).key sk s.made m, alone y i old was lives)
            (h.1 y i old was lives)
    ],
  )

  closed_old :
      (sk : Bytes) (s : Store) (m : Conns.carrier)
      → IsKept Conns s m
      → (i : ℕ) → i < s.made
      → (s.session i).role ≡ client
      → ((close_old Conns (Conns.get sk m) s).session i).closed ≡ false
      → bytes_eq sk (s.session i).key ≡ false
  unfolding close_old
  closed_old sk s m h i lt role live = elim (Bool-cases (bytes_eq sk (s.session i).key)) [
    | inr e ↦ e
    | inl e ↦
        let same : sk ≡ (s.session i).key = bytes_eq_sound sk (s.session i).key e in
        let live0 : (s.session i).closed ≡ false =
          ((close_old-Ages Conns (Conns.get sk m) s).0 i).2 live in
        let here : Conns.get sk m ≡ some i = rw same (h i lt role live0) in
        let shut : ((close_old Conns (Conns.get sk m) s).session i).closed ≡ true =
          rw here (close_at-closed i s) in
        cc
  ]

  pub take_client-IsSound :
      (sk : Bytes) (b : Bridge Conns)
      → IsSound b.store b.clients
      → IsSound (take_client Conns sk b).store (take_client Conns sk b).clients
  unfolding take_client
  take_client-IsSound sk b h =
      let s : Store = close_old Conns (Conns.get sk b.clients) b.store in
      let aged : Ages b.store s = close_old-Ages Conns (Conns.get sk b.clients) b.store in
      subst (λ (n : ℕ). IsSound (add (joined sk) s) (Conns.set sk n b.clients)) aged.1
        (added-IsSound sk s b.clients
          (λ y i lt role live. rw (aged.0 i).1 (
            closed_old sk b.store b.clients (h.1 y) i (subst (λ (n : ℕ). i < n) aged.1 lt)
              (sym (aged.0 i).0 ∙ role) live))
          (Ages-IsSound b.store s b.clients aged h))

  -- A new session of a server node.
  served-IsSound :
      (addr : Bytes) (s : Store) (m : Conns.carrier) → IsSound s m → IsSound (add (served addr) s) m
  served-IsSound addr s m h = (
    λ k i e.
        let (lt, role, key) = h.0 k i e in
        let is = add_old (served addr) s i lt in
        (
          ground (arith, add_made (served addr) s),
          ap (λ x. x.role) is ∙ role,
          ap (λ x. x.key) is ∙ key,
        ),
    λ y i lt role live. elim (le_or_lt s.made i) [
      | inl ge ↦
          let here : s.made ≡ i = ground (arith, add_made (served addr) s) in
          let is : (add (served addr) s).session i ≡ served addr =
            subst (λ (j : ℕ). (add (served addr) s).session j ≡ served addr) here
              (add_new (served addr) s) in
          let other : server ≡ client = sym (ap (λ x. x.role) is) ∙ role in cc
      | inr old ↦
          let is = add_old (served addr) s i old in
          rw is
            (h.1 y i old (sym (ap (λ x. x.role) is) ∙ role) (sym (ap (λ x. x.closed) is) ∙ live))
    ],
  )

  pub take_server-IsSound :
      (addr : Bytes) (b : Bridge Conns)
      → IsSound b.store b.clients
      → IsSound (take_server Conns addr b).store (take_server Conns addr b).clients
  unfolding take_server
  take_server-IsSound addr b h =
      let old = Conns.get addr b.servers in
      served-IsSound addr (close_old Conns old b.store) b.clients (
        Ages-IsSound b.store (close_old Conns old b.store) b.clients
          (close_old-Ages Conns old b.store) h)
