-- ===== src/Tests/Buffers.antt =====
-- Containers of 96 bytes, as an executor has them, and of 8 bytes.
use minicomps.Prelude.{ℕ, ◌≡◌, ◌≢◌, refl, false, not, none, some, ok, update, arith}
use minicomps.FixedAny.{ObjectType, Memory, FixedAny, empty, assign_value, assign_move}
use minicomps.FixedAny.Lifecycle.{Holds, fits, filled, address, assign_value-Holds}
use minicomps.FixedAny.Moves.{target, assign_move-Holds}

abbrev word : ObjectType
word = record { id = 1; size = 8; align = 8 }

abbrev wide : ObjectType
wide = record { id = 2; size = 32; align = 32 }

abbrev blank : Memory
blank q = none

-- A container at address 160 that holds the word 42.
abbrev full : FixedAny
full = filled (empty 160) (some 160) 160 word false

abbrev with_word : Memory
with_word = update blank 160 (some (record { type = word; value = some 42 }))

full-Holds : Holds 96 full with_word word (some 42) 160 false
full-Holds = record {
  pointer = refl;
  stored = refl;
  destructor = refl;
  mover = refl;
  aligned = refl;
  place = (refl, omega arith, omega arith);
}

assign_value-Holds_example :
    (a : FixedAny) × (mem : Memory) × (assign_value 96 512 (empty 160) word 42 blank ≡ ok a mem)
    × Holds 96 a mem word (some 42) (address 96 512 (empty 160) word) (not (fits 96 word))
    × ((q : ℕ) → q ≢ address 96 512 (empty 160) word → mem q ≡ blank q)
assign_value-Holds_example =
    assign_value-Holds 96 512 (empty 160) word 42 blank refl (omega arith) (omega arith)

assign_move-Holds_example :
    (a b : FixedAny) × (mem : Memory) × (assign_move 512 (empty 320) full with_word ≡ ok (a, b) mem)
    × Holds 96 a mem word (some 42) (target 512 (empty 320) full 160 false) false
    × (b.object_ptr ≡ none)
    × (b.move_construct ≡ none)
    × (mem 160 ≡ none)
    × ((q : ℕ) → q ≢ 160 → q ≢ target 512 (empty 320) full 160 false → mem q ≡ with_word q)
assign_move-Holds_example =
    assign_move-Holds 96 512 (empty 320) full word (some 42) 160 with_word false refl full-Holds
      (omega arith) (omega arith) (omega arith) (omega arith)

-- A type that wants 32 bytes of alignment, in a buffer at 176, where it stands at 192.
abbrev full_wide : FixedAny
full_wide = filled (empty 176) (some 192) 192 wide false

abbrev with_wide : Memory
with_wide = update blank 192 (some (record { type = wide; value = some 9 }))

full_wide-Holds : Holds 96 full_wide with_wide wide (some 9) 192 false
full_wide-Holds = record {
  pointer = refl;
  stored = refl;
  destructor = refl;
  mover = refl;
  aligned = refl;
  place = (refl, omega arith, omega arith);
}
