-- ===== src/Queue/Fifo.antt =====
-- What an HFI queue promises: a FIFO of packets, bounded by the words that they take.
use eva_driver.Prelude.{ℕ, ◌+◌, Option, none, some, List, [], ◌∷◌, ◌++◌}
use eva_driver.Prelude.Tests.{ltb, if◌then◌else◌}
use eva_driver.Prelude.Lists.{length, concat}

-- A packet is taken if a word stays free behind it.
unfoldable pub push : ℕ → List (List ℕ) → List ℕ → Option (List (List ℕ))
push size packets packet =
    if ltb (length (concat packets) + length packet) size
    then some (packets ++ (packet ∷ []))
    else none

unfoldable pub pop : List (List ℕ) → Option (List ℕ × List (List ℕ))
pop [] = none
pop (packet ∷ packets) = some (packet, packets)
