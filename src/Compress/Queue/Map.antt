-- ===== src/Compress/Queue/Map.antt =====
-- std's BTreeMap<u64, ProcessedBlock>, by what it holds under each key.
use cryo.Base.{
  ℕ, ◌<◌, ◌≤◌, ◌≡◌, Option, none, some, List, [], ◌∷◌, arith, ◌==◌, if◌then◌else◌, length,
}
use cryo.Writer.{ProcessedBlock}

abbrev pub BTreeMap : Type 0
BTreeMap = List (ℕ × ProcessedBlock)

unfoldable pub lookup : ℕ → BTreeMap → Option ProcessedBlock
lookup k [] = none
lookup k ((j, b) ∷ m) = if j == k then some b else lookup k m

unfoldable pub erase : ℕ → BTreeMap → BTreeMap
erase k [] = []
erase k ((j, b) ∷ m) = let rest = erase k m in if j == k then rest else (j, b) ∷ rest

unfoldable pub insert : ℕ → ProcessedBlock → BTreeMap → BTreeMap
unfolding erase
insert k b m = (k, b) ∷ erase k m

pub lookup-erase :
    (j k : ℕ) (m : BTreeMap) → lookup j (erase k m) ≡ (if k == j then none else lookup j m)
unfolding lookup erase
lookup-erase j k [] = ground arith
lookup-erase j k ((i, b) ∷ m) = ground (arith, lookup-erase j k m)

pub lookup-insert :
    (j k : ℕ) (b : ProcessedBlock) (m : BTreeMap)
    → lookup j (insert k b m) ≡ (if k == j then some b else lookup j m)
unfolding lookup insert
lookup-insert j k b m = ground (arith, lookup-erase j k m)

length-erase_le : (k : ℕ) (m : BTreeMap) → length (erase k m) ≤ length m
unfolding erase
length-erase_le k [] = omega arith
length-erase_le k ((j, b) ∷ m) = ground (arith, length-erase_le k m)

-- Taking out what is there makes the map smaller.
pub length-erase :
    (k : ℕ) (m : BTreeMap) (b : ProcessedBlock)
    → lookup k m ≡ some b
    → length (erase k m) < length m
unfolding lookup erase
length-erase k [] b h = cc
length-erase k ((j, c) ∷ m) b h = ground (arith, length-erase_le k m, length-erase k m b)
