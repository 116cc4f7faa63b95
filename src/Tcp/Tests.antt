-- ===== src/Tcp/Tests.antt =====
-- A source on two streams.
use jocasta.Prelude.{ℕ, ◌≡◌, refl, true, false, none, [], ◌∷◌}
use jocasta.Prelude.Int.{pos, ◌-ℤ◌}
use jocasta.Go.Io.{Bytes}
use jocasta.Connection.Manager.Entries.{entries}
use jocasta.Tcp.{Store, State, new_item, answer, find_or_dial, tick}
use jocasta.Tcp.Fresh.{new_item_collected}
use jocasta.Tcp.First.{resumed, answer_lost}

abbrev src : Bytes
src = 97 ∷ []

abbrev nothing : Store
nothing = record {
  item = λ j. new_item 0 [];
  made = 0;
  stream = λ c. record { closed = false; written = [] };
}

abbrev state : State (entries ℕ)
state = (nothing, (entries ℕ).empty)

answer_lost_example :
    (((resumed (entries ℕ) (pos 1) (pos 5) true 0 1 src (7 ∷ []) (8 ∷ []) state).0.item 0).closed
      ≡ false)
    × (((resumed (entries ℕ) (pos 1) (pos 5) true 0 1 src (7 ∷ []) (8 ∷ []) state).0.item 0).sent
        ≡ (7 ∷ []) ∷ (8 ∷ []) ∷ [])
    × (((answer
            (entries ℕ)
            (pos 6)
            0
            (9 ∷ [])
            (resumed (entries ℕ) (pos 1) (pos 5) true 0 1 src (7 ∷ []) (8 ∷ []) state)).0.stream
          1).written
        ≡ [])
answer_lost_example =
    answer_lost (entries ℕ) (pos 1) (pos 5) (pos 6) true 0 1 src (7 ∷ []) (8 ∷ []) (9 ∷ []) nothing
      (entries ℕ).empty refl 1

new_item_collected_example :
    ((entries ℕ).get src
        (tick (entries ℕ) (pos 10) (pos 20) (find_or_dial (entries ℕ) true 0 src state).1).1
      ≡ none)
    × (((tick (entries ℕ) (pos 10) (pos 20) (find_or_dial (entries ℕ) true 0 src state).1).0.item
          0).closed
        ≡ true)
unfolding ◌-ℤ◌
new_item_collected_example =
    new_item_collected (entries ℕ) (pos 10) (pos 20) 0 src nothing (entries ℕ).empty refl refl
