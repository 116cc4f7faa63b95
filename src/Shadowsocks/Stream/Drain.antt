-- ===== src/Shadowsocks/Stream/Drain.antt =====
-- connection/shadowsocks/conn.go: the reads of a connection, behind the iv.
use jocasta.Prelude.{
  ℕ, suc, ◌+◌, ◌≤◌, ◌≡◌, refl, sym, ap, ◌∙◌, some, List, [], ◌∷◌, ◌++◌, length, take, drop, All,
  leb, arith, append_assoc, take-append-drop, length-drop, Bool-cases, inl, inr, true, false,
}
use jocasta.Go.Result.{Result, ok, err, panic}
use jocasta.Go.Io.{Bytes}
use jocasta.Go.Conn.{Conn, read}
use jocasta.Shadowsocks.Cipher.{Streams, StreamLaws, Cipher, CipherError, read_fail}
use jocasta.Shadowsocks.Stream.{read_conn}

abbrev pub concat : List Bytes → Bytes
concat [] = []
concat (x ∷ xs) = x ++ concat xs

-- The reads that a list of buffer sizes stands for, until one fails: what they read, and the streams and
-- chunks that are left.
abbrev pub size : List Bytes → ℕ
size [] = 0
size (x ∷ xs) = suc (length x + size xs)

module _ (S : Streams) where
  -- What a read comes to, and the reads behind it.
  abbrev onward :
      (Cipher S → Conn → Bytes × Conn) → Result CipherError (Bytes × Cipher S) × Conn → Bytes × Conn
  onward more (ok p, conn) = let rest = more p.1 conn in (p.0 ++ rest.0, rest.1)
  onward more (err e, conn) = ([], conn)
  onward more (panic, conn) = ([], conn)

  -- The reads until one fails.
  unfoldable pub drain : List ℕ → Cipher S → Conn → Bytes × Conn
  drain [] c conn = ([], conn)
  drain (n ∷ ns) c conn = onward (drain ns) (read_conn S n c conn)

module _ (S : Streams) (n : ℕ) (ns : List ℕ) (c : Cipher S) (conn conn' : Conn) where
  drain_err :
      {e : CipherError}
      → read_conn S n c conn ≡ (err e, conn')
      → drain S (n ∷ ns) c conn ≡ ([], conn')
  unfolding drain
  drain_err e = ap (onward S (drain S ns)) e

  drain_ok :
      {p : Bytes × Cipher S}
      → read_conn S n c conn ≡ (ok p, conn')
      → drain S (n ∷ ns) c conn ≡ (p.0 ++ (drain S ns p.1 conn').0, (drain S ns p.1 conn').1)
  unfolding drain
  drain_ok e = ap (onward S (drain S ns)) e

pub drain-cong :
    (S : Streams) (n : ℕ) (ns : List ℕ) (c c' : Cipher S) (conn conn' : Conn)
    → read_conn S n c conn ≡ read_conn S n c' conn'
    → drain S (n ∷ ns) c conn ≡ drain S (n ∷ ns) c' conn'
unfolding drain
drain-cong S n ns c c' conn conn' e = ap (onward S (drain S ns)) e

abbrev pub chunks : List Bytes → ℕ → List Bytes → Conn
chunks ps room w = record { pending = ps; room = room; written = w }

module _ (S : Streams) (n room : ℕ) (c : Cipher S) (r : S.Stream) (w : List Bytes) where
  abbrev with_reader : S.Stream → Cipher S
  with_reader r = record c { reader = some r }

  read_conn_end :
      read_conn S n (with_reader r) (chunks [] room w) ≡ (err read_fail, chunks [] room w)
  unfolding read_conn read
  read_conn_end = refl

  read_conn_whole :
      (x : Bytes) (xs : List Bytes)
      → leb (length x) n ≡ true
      → read_conn S n (with_reader r) (chunks (x ∷ xs) room w)
        ≡ (ok ((S.xor_stream r x).0, with_reader (S.xor_stream r x).1), chunks xs room w)
  unfolding read_conn read
  read_conn_whole x xs h = rw h refl

  read_conn_part :
      (x : Bytes) (xs : List Bytes)
      → leb (length x) n ≡ false
      → read_conn S n (with_reader r) (chunks (x ∷ xs) room w) ≡ (
        ok ((S.xor_stream r (take n x)).0, with_reader (S.xor_stream r (take n x)).1),
        chunks (drop n x ∷ xs) room w,
      )
  unfolding read_conn read
  read_conn_part x xs h = rw h refl

abbrev pub Positive : List ℕ → Type 0
Positive = All (λ n. 1 ≤ n)

size_zero : (ps : List Bytes) → size ps ≤ 0 → ps ≡ []
size_zero [] h = refl
size_zero (x ∷ xs) h = absurd (omega arith)

length_zero : (xs : Bytes) → length xs ≡ 0 → xs ≡ []
length_zero [] h = refl
length_zero (x ∷ xs) h = absurd (omega arith)

module _ (S : Streams) (L : StreamLaws S) where
  -- What was read and what the chunks that are left decrypt to.
  abbrev pub Leaves : List ℕ → Bytes × Conn → Bytes → List Bytes → Type 0
  Leaves ns d plain ps =
      (rest : Bytes) × (d.0 ++ rest ≡ plain)
      × (size ps ≤ length ns → Positive ns → (d.1.pending ≡ []) × (rest ≡ []))

  pub no_bytes : (r : S.Stream) → (S.xor_stream r []).0 ≡ []
  no_bytes r = length_zero (S.xor_stream r []).0 (L.keeps_length r [])

  joined : (a b : Bytes) {t : Bytes} (rest : Bytes) → b ++ rest ≡ t → (a ++ b) ++ rest ≡ a ++ t
  joined a b rest e = append_assoc a b rest ∙ ap (λ (t : Bytes). a ++ t) e

  cut_first :
      (r : S.Stream) (x y : Bytes)
      → (S.xor_stream r x).0 ++ (S.xor_stream (S.xor_stream r x).1 y).0
        ≡ (S.xor_stream r (x ++ y)).0
  cut_first r x y = rw (L.cuts r x y) refl

  part : (n : ℕ) (x y : Bytes) → take n x ++ (drop n x ++ y) ≡ x ++ y
  part n x y =
      sym (append_assoc (take n x) (drop n x) y) ∙ ap (λ (t : Bytes). t ++ y) (take-append-drop n x)

  shorter :
      (n : ℕ) (x : Bytes) (xs : List Bytes) (k : ℕ)
      → leb (length x) n ≡ false
      → 1 ≤ n
      → size (x ∷ xs) ≤ suc k
      → size (drop n x ∷ xs) ≤ k
  shorter n x xs k t p h = ground (arith, length-drop n x)

  pub drain-Leaves :
      (ns : List ℕ) (c : Cipher S) (r : S.Stream) (ps : List Bytes) (room : ℕ) (w : List Bytes)
      → Leaves ns
          (drain S ns (record c { reader = some r }) (chunks ps room w))
          (S.xor_stream r (concat ps)).0
          ps
  unfolding drain
  drain-Leaves [] c r ps room w = (
    (S.xor_stream r (concat ps)).0,
    refl,
    λ h _. (size_zero ps h, rw (size_zero ps h) (no_bytes r)),
  )
  drain-Leaves (n ∷ ns) c r [] room w =
      rw
        (drain_err S n ns (record c { reader = some r }) (chunks [] room w) (chunks [] room w)
          (read_conn_end S n room c r w))
        ((S.xor_stream r []).0, refl, λ _ _. (refl, no_bytes r))
  drain-Leaves (n ∷ ns) c r (x ∷ xs) room w = elim (Bool-cases (leb (length x) n)) [
    | inl t ↦
        let (rest, e, f) = drain-Leaves ns c (S.xor_stream r x).1 xs room w in
        rw
          (drain_ok S n ns (record c { reader = some r }) (chunks (x ∷ xs) room w)
            (chunks xs room w) (read_conn_whole S n room c r w x xs t))
          (
            rest,
            joined (S.xor_stream r x).0 _ rest e ∙ cut_first r x (concat xs),
            λ h p. f (omega arith) p.1,
          )
    | inr t ↦
        let (rest, e, f) = drain-Leaves ns c (S.xor_stream r (take n x)).1 (drop n x ∷ xs) room w in
        rw
          (drain_ok S n ns (record c { reader = some r }) (chunks (x ∷ xs) room w)
            (chunks (drop n x ∷ xs) room w) (read_conn_part S n room c r w x xs t))
          (
            rest,
            joined (S.xor_stream r (take n x)).0 _ rest e
                ∙ cut_first r (take n x) (drop n x ++ concat xs)
                ∙ ap (λ (t : Bytes). (S.xor_stream r t).0) (part n x (concat xs)),
            λ h p. f (shorter n x xs (length ns) t p.0 h) p.1,
          )
  ]
