-- ===== src/FixedAny/Moves.antt =====
-- What a move between two containers of fixed_any.h does to the objects in memory.
use minicomps.Prelude.{
  ℕ, ◌+◌, ◌-◌, ◌%◌, ◌≡◌, ◌≢◌, refl, Bool, true, false, Option, none, some, arith, if◌then◌else◌,
  update, ok, abort,
}
use minicomps.FixedAny.{ObjectType, Memory, FixedAny, call_move_construct, rebase, assign_move}
use minicomps.FixedAny.Alignment.{rebase-mod}
use minicomps.FixedAny.Lifecycle.{
  Holds, check-ok, check-abort, move-ok, destroy-Holds, destroy-empty, filled,
}

-- Where a move puts the object.
abbrev pub target : ℕ → FixedAny → FixedAny → ℕ → Bool → ℕ
target fresh a other ptr on_heap = if on_heap then fresh else a.storage + (ptr - other.storage)

module _ (length fresh : ℕ) (a other : FixedAny) (t : ObjectType) (v : Option ℕ) (ptr : ℕ)
    (mem : Memory) where
  moved : ℕ → Memory
  moved to =
      update (update mem to (some (record { type = t; value = v }))) ptr
        (some (record { type = t; value = none }))

  abbrev emptied : FixedAny
  emptied = record other {
    object_ptr = none;
    aligned_ptr = none;
    destruct = none;
    move_construct = none;
  }

  move_construct-eq :
      (b : Bool)
      → Holds length other mem t v ptr b
      → (b ≡ false → target fresh a other ptr b % t.align ≡ 0)
      → target fresh a other ptr b ≢ ptr
      → call_move_construct fresh other.move_construct (rebase a.storage other) other.object_ptr mem
        ≡ ok (target fresh a other ptr b) (moved (target fresh a other ptr b))
  unfolding call_move_construct moved
  move_construct-eq true h al ne = rw (
    h.mover,
    h.pointer,
    h.place,
    check-ok mem t ptr h.aligned,
    move-ok mem t ptr fresh h.stored ne,
  )
  move_construct-eq false h al ne =
      let to = a.storage + (ptr - other.storage) in
      rw (
        h.mover,
        h.pointer,
        h.place.0,
        check-ok mem t to (al refl),
        check-ok mem t ptr h.aligned,
        move-ok mem t ptr to h.stored ne,
      )

  source-Holds :
      (b : Bool) (to : ℕ)
      → Holds length other mem t v ptr b
      → Holds length other (moved to) t none ptr b
  unfolding moved
  source-Holds b to h = record {
    pointer = h.pointer;
    stored = ground arith;
    destructor = h.destructor;
    mover = h.mover;
    aligned = h.aligned;
    place = h.place;
  }

  assign_move-eq :
      (b : Bool)
      → a.object_ptr ≡ none
      → Holds length other mem t v ptr b
      → (b ≡ false → target fresh a other ptr b % t.align ≡ 0)
      → target fresh a other ptr b ≢ ptr
      → assign_move fresh a other mem
        ≡ ok
            (filled a (rebase a.storage other) (target fresh a other ptr b) t b, emptied)
            (update (moved (target fresh a other ptr b)) ptr none)
  unfolding assign_move
  assign_move-eq b e h al ne =
      let to = target fresh a other ptr b in
      rw
        (
          destroy-empty a mem e,
          move_construct-eq b h al ne,
          destroy-Holds length other (moved to) t none ptr b (source-Holds b to h),
        )
        (ground arith)

  moved-Holds :
      (b : Bool)
      → Holds length other mem t v ptr b
      → target fresh a other ptr b % t.align ≡ 0
      → target fresh a other ptr b ≢ ptr
      → Holds length
          (filled a (rebase a.storage other) (target fresh a other ptr b) t b)
          (update (moved (target fresh a other ptr b)) ptr none)
          t
          v
          (target fresh a other ptr b)
          b
  unfolding moved
  moved-Holds true h al ne = record {
    pointer = refl;
    stored = ground arith;
    destructor = refl;
    mover = refl;
    aligned = al;
    place = ground (arith, h.place);
  }
  moved-Holds false h al ne = record {
    pointer = refl;
    stored = ground arith;
    destructor = refl;
    mover = refl;
    aligned = al;
    place = (ground (arith, h.place.0), omega arith, omega (arith, h.place.1, h.place.2));
  }

  -- An object is moved into an empty container, where the buffers of both containers, and the address
  -- that the allocator may return, are aligned for its type, and its new place is not the old one. The
  -- move does not abort: the object is then at its new place with its value, the old object has been
  -- ended, the source is empty with no functions left, and no third object changes.
  pub assign_move-Holds :
      (b : Bool)
      → a.object_ptr ≡ none
      → Holds length other mem t v ptr b
      → a.storage % t.align ≡ 0
      → other.storage % t.align ≡ 0
      → fresh % t.align ≡ 0
      → target fresh a other ptr b ≢ ptr
      → (a' other' : FixedAny) × (mem' : Memory) × (assign_move fresh a other mem
          ≡ ok (a', other') mem')
        × Holds length a' mem' t v (target fresh a other ptr b) b
        × (other'.object_ptr ≡ none)
        × (other'.move_construct ≡ none)
        × (mem' ptr ≡ none)
        × ((q : ℕ) → q ≢ ptr → q ≢ target fresh a other ptr b → mem' q ≡ mem q)
  unfolding moved
  assign_move-Holds b e h ha ho hf ne = (
    filled a (rebase a.storage other) (target fresh a other ptr b) t b,
    emptied,
    update (moved (target fresh a other ptr b)) ptr none,
    assign_move-eq b e h (λ _. to_aligned b) ne,
    moved-Holds b h (to_aligned b) ne,
    refl,
    refl,
    ground arith,
    λ q ne1 ne2. ground arith,
  )
    where
      to_aligned : (b : Bool) → target fresh a other ptr b % t.align ≡ 0
      to_aligned true = hf
      to_aligned false = rebase-mod a.storage other.storage ptr t.align ha ho h.aligned

  -- A move keeps the offset of an object in the buffer. Where the address at that offset of the new
  -- buffer is not aligned for the type, the move aborts.
  pub assign_move_misaligned :
      a.object_ptr ≡ none
      → Holds length other mem t v ptr false
      → (a.storage + (ptr - other.storage)) % t.align ≢ 0
      → assign_move fresh a other mem ≡ abort
  unfolding assign_move call_move_construct
  assign_move_misaligned e h bad = rw (
    destroy-empty a mem e,
    h.mover,
    h.pointer,
    h.place.0,
    check-abort mem t (a.storage + (ptr - other.storage)) bad,
  )

-- Moving from a container that has never been assigned, or that has been moved from, aborts: it has
-- no move function to call.
assign_move_empty :
    (fresh : ℕ) (a other : FixedAny) (mem : Memory)
    → a.object_ptr ≡ none
    → other.move_construct ≡ none
    → assign_move fresh a other mem ≡ abort
unfolding assign_move call_move_construct
assign_move_empty fresh a other mem e h = rw (destroy-empty a mem e, h)
