-- ===== src/Go/Conn.antt =====
-- net.Conn: what the calls of one side see of a connection. What the other side sends arrives in
-- chunks, of which a Read takes at most one; behind them, a read fails.
use jocasta.Prelude.{
  ℕ, zero, suc, ◌-◌, ◌≤◌, ◌≡◌, refl, List, [], ◌∷◌, ◌++◌, length, take, drop, leb, ltb, ◌==◌,
  le→leb, ◌≤◌, ◌≡◌, refl, ltb, if◌then◌else◌,
}
use jocasta.Go.Result.{Result, ok, err, panic}
use jocasta.Go.Io.{Bytes}

-- `room` is the number of writes that still succeed; `written` has the accepted ones, in order.
pub record Conn : Type 0 where
  pub pending : List Bytes
  pub room : ℕ
  pub written : List Bytes

-- A procedure on a connection: what it did to it stays done when it fails.
abbrev pub Exec : Type 0 → Type 0 → Type 0
Exec E A = Conn → Result E A × Conn

module _ {E A B : Type 0} where
  abbrev pub continue : Result E A → (A → Exec E B) → Exec E B
  continue (ok a) f c = f a c
  continue (err e) f c = (err e, c)
  continue panic f c = (panic, c)

  infixl 5 ◌>>=◌ ◌>>◌
  abbrev pub ◌>>=◌ : Exec E A → (A → Exec E B) → Exec E B
  ◌>>=◌ m f c = let p = m c in continue p.0 f p.1

  abbrev pub ◌>>◌ : Exec E A → Exec E B → Exec E B
  m >> k = m >>= λ _. k

module _ {E A : Type 0} where
  abbrev pub pure : A → Exec E A
  pure a c = (ok a, c)

  abbrev pub fail : E → Exec E A
  fail e c = (err e, c)

  abbrev pub crash : Exec E A
  crash c = (panic, c)

  -- A computation that does not touch the connection.
  abbrev pub lift : Result E A → Exec E A
  lift r c = (r, c)

  -- A call whose error is dropped.
  abbrev pub ignoring : Result E A → Result E (Unit {0})
  ignoring (ok _) = ok tt
  ignoring (err _) = ok tt
  ignoring panic = panic

  abbrev pub ignore : Exec E A → Exec E (Unit {0})
  ignore m c = let p = m c in (ignoring p.0, p.1)

module _ {E : Type 0} where
  -- conn.Write(b)
  abbrev pub write_to : E → Bytes → ℕ → Exec E (Unit {0})
  write_to e b zero c = (err e, c)
  write_to e b (suc n) c = (ok tt, record c { room = n; written = c.written ++ b ∷ [] })

  unfoldable pub write : E → Bytes → Exec E (Unit {0})
  write e b c = write_to e b c.room c

  -- conn.Read(buf) with `n` bytes of `buf`.
  abbrev pub read_from : E → ℕ → List Bytes → Exec E Bytes
  read_from e n [] c = (err e, c)
  read_from e n (x ∷ xs) c =
      if leb (length x) n
      then (ok x, record c { pending = xs })
      else (ok (take n x), record c { pending = drop n x ∷ xs })

  unfoldable pub read : E → ℕ → Exec E Bytes
  read e n c = read_from e n c.pending c

-- At most `n` bytes off the chunks.
unfoldable pub take_chunks : ℕ → List Bytes → Bytes × List Bytes
take_chunks n [] = ([], [])
take_chunks n (x ∷ xs) =
    let rest = take_chunks (n - length x) xs in
    if ltb (length x) n
    then (x ++ rest.0, rest.1)
    else if length x == n
    then (x, xs)
    else (take n x, drop n x ∷ xs)

module _ {E : Type 0} where
  -- io.ReadFull(conn, buf) with `n` bytes of `buf`.
  unfoldable pub read_full : E → ℕ → Exec E Bytes
  unfolding take_chunks
  read_full e n c =
      let p = take_chunks n c.pending in
      let c' = record c { pending = p.1 } in
      if leb n (length p.0) then (ok p.0, c') else (err e, c')

-- A connection on which nothing has been written yet.
abbrev pub fresh_conn : List Bytes → ℕ → Conn
fresh_conn chunks room = record { pending = chunks; room = room; written = [] }

module _ {E : Type 0} (e : E) (rest w : List Bytes) (room : ℕ) where
  -- A read with room for the whole chunk takes it.
  pub read_whole :
      (n : ℕ) (x : Bytes)
      → length x ≤ n
      → read e n (record { pending = x ∷ rest; room = room; written = w })
        ≡ (ok x, record { pending = rest; room = room; written = w })
  unfolding read
  read_whole n x h = rw (le→leb (length x) n h) refl

  pub write_ok :
      (b : Bytes)
      → write e b (record { pending = rest; room = suc room; written = w })
        ≡ (ok tt, record { pending = rest; room = room; written = w ++ b ∷ [] })
  unfolding write
  write_ok b = refl
