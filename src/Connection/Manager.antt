-- ===== src/Connection/Manager.antt =====
-- connection/manager.go: a map of connections that is swept in intervals. The concurrent map of the
-- third-party package is an interface with what is documented of it.
pub mod Sweeps
pub mod Entries
use jocasta.Prelude.{
  ℕ, ◌≡◌, Bool, true, false, ◌&&◌, ◌||◌, Option, none, some, List, [], ◌∷◌, leb, if◌then◌else◌,
}
use jocasta.Prelude.Int.{ℤ, pos, ltb_ℤ}
use jocasta.Go.Io.{Bytes}
use jocasta.Go.Net.{bytes_eq}

abbrev pub find {ℓ} : {V : Type ℓ} → Bytes → List (Bytes × V) → Option V
find k [] = none
find k ((j, v) ∷ es) = if bytes_eq j k then some v else find k es

-- No key stands in the list twice.
abbrev pub OneEach {ℓ} : {V : Type ℓ} → List (Bytes × V) → Type ℓ
OneEach [] = Unit
OneEach ((k, v) ∷ es) = (find k es ≡ none) × OneEach es

pub record SharedMap (V : Type 0) : Type 1 where
  pub carrier : Type 0
  pub empty : carrier
  pub get : Bytes → carrier → Option V
  pub set : Bytes → V → carrier → carrier
  pub remove : Bytes → carrier → carrier
  -- Items, as a list of the entries.
  pub items : carrier → List (Bytes × V)
  pub get_empty : (k : Bytes) → get k empty ≡ none
  pub get_set :
      (k j : Bytes) (v : V) (m : carrier)
      → get k (set j v m) ≡ (if bytes_eq j k then some v else get k m)
  pub get_remove :
      (k j : Bytes) (m : carrier) → get k (remove j m) ≡ (if bytes_eq j k then none else get k m)
  pub find_items : (k : Bytes) (m : carrier) → find k (items m) ≡ get k m
  pub items_OneEach : (m : carrier) → OneEach (items m)

-- The callback of the manager: its test at a moment, and what it does where the test holds.
pub record Collector (V S : Type 0) : Type 0 where
  pub due : ℤ → Bytes → V → S → Bool
  pub release : Bytes → V → S → S

module _ {V S : Type 0} (Conns : SharedMap V) where
  -- One turn of the loop at a tick: an entry that the callback accepts is removed by its key. The entry is
  -- one that the map had when the tick began; the map may have changed since then.
  abbrev pub visit : Collector V S → ℤ → Bytes → V → S × Conns.carrier → S × Conns.carrier
  visit c now k v (s, m) = if c.due now k v s then (c.release k v s, Conns.remove k m) else (s, m)

  -- The loop over the items, where no other part of the program comes in between its turns.
  unfoldable pub sweep_loop :
      Collector V S → ℤ → List (Bytes × V) → S × Conns.carrier → S × Conns.carrier
  sweep_loop c now [] state = state
  sweep_loop c now ((k, v) ∷ es) (s, m) = sweep_loop c now es (visit c now k v (s, m))

  unfoldable pub sweep : Collector V S → ℤ → S × Conns.carrier → S × Conns.carrier
  unfolding sweep_loop
  sweep c now state = sweep_loop c now (Conns.items state.1) state

  sweeps : Collector V S → List ℤ → S × Conns.carrier → S × Conns.carrier
  unfolding sweep
  sweeps c [] state = state
  sweeps c (now ∷ ticks) state = sweeps c ticks (sweep c now state)

  -- Watch, until the context is done: the moments at which the ticker fires.
  unfoldable pub watch : ℤ → Option (Collector V S) → List ℤ → S × Conns.carrier → S × Conns.carrier
  unfolding sweeps
  watch interval none ticks state = state
  watch interval (some c) ticks state =
      if ltb_ℤ (pos 0) interval then sweeps c ticks state else state
