-- ===== src/FixedAny/Lifecycle.antt =====
-- What `assign` and `destroy` of fixed_any.h do to the objects in memory.
use minicomps.Prelude.{
  ℕ, ◌+◌, ◌-◌, ◌%◌, ◌≤◌, ◌<◌, ◌≡◌, ◌≢◌, refl, inl, inr, Bool, true, false, not, Option, none, some,
  arith, leb, if◌then◌else◌, update, ok, abort, Bool-cases, leb→le,
}
use minicomps.FixedAny.{
  ObjectType, Memory, FixedAny, Functions, check_alignment, construct, object_at, end_object,
  call_destruct, destroy, move_object, align_up, assign_value,
}
use minicomps.FixedAny.Alignment.{align_up-mod, align_up-lt, le-align_up}

-- Where the object of a container stands: in its buffer of `length` bytes, or on the heap.
abbrev pub Place : ℕ → FixedAny → ObjectType → ℕ → Bool → Type 0
Place length a t ptr true = a.aligned_ptr ≡ none
Place length a t ptr false =
    (a.aligned_ptr ≡ some ptr) × (a.storage ≤ ptr) × (ptr + t.size ≤ a.storage + length)

-- The container holds an object of type `t` with value `v` at `ptr`.
pub record Holds (length : ℕ) (a : FixedAny) (mem : Memory) (t : ObjectType) (v : Option ℕ)
    (ptr : ℕ) (on_heap : Bool) : Type 0 where
  pub pointer : a.object_ptr ≡ some ptr
  pub stored : mem ptr ≡ some (record { type = t; value = v })
  pub destructor : a.destruct ≡ some (record { type = t; on_heap = on_heap })
  pub mover : a.move_construct ≡ some (record { type = t; on_heap = on_heap })
  pub aligned : ptr % t.align ≡ 0
  pub place : Place length a t ptr on_heap

-- Where `assign` puts a value of type `t`.
abbrev pub fits : ℕ → ObjectType → Bool
fits length t = leb (t.size + t.align - 1) length

abbrev pub address : ℕ → ℕ → FixedAny → ObjectType → ℕ
address length fresh a t = if fits length t then align_up t.align a.storage else fresh

abbrev in_type : ObjectType → Bool → Functions
in_type t b = record { type = t; on_heap = b }

abbrev pub filled : FixedAny → Option ℕ → ℕ → ObjectType → Bool → FixedAny
filled a aligned ptr t b = record a {
  aligned_ptr = aligned;
  object_ptr = some ptr;
  destruct = some (in_type t b);
  move_construct = some (in_type t b);
}

module _ (mem : Memory) (t : ObjectType) (ptr : ℕ) where
  pub check-ok : ptr % t.align ≡ 0 → check_alignment t ptr mem ≡ ok tt mem
  unfolding check_alignment
  check-ok h = rw h

  pub check-abort : ptr % t.align ≢ 0 → check_alignment t ptr mem ≡ abort
  unfolding check_alignment
  check-abort h = ground arith

  pub end-ok :
      {v : Option ℕ}
      → mem ptr ≡ some (record { type = t; value = v })
      → end_object t ptr mem ≡ ok tt (update mem ptr none)
  unfolding end_object object_at
  end-ok e = ground arith

  -- Moving an object of the type out of `ptr` leaves it there without its value.
  pub move-ok :
      {v : Option ℕ} (target : ℕ)
      → mem ptr ≡ some (record { type = t; value = v })
      → target ≢ ptr
      → move_object t target ptr mem
        ≡ ok target (
            update
              (update mem target (some (record { type = t; value = v })))
              ptr
              (some (record { type = t; value = none })))
  unfolding move_object object_at construct
  move-ok target e ne = ground arith

-- `destroy` ends the object that the container holds, once, and empties the container.
pub destroy-Holds :
    (length : ℕ) (a : FixedAny) (mem : Memory) (t : ObjectType) (v : Option ℕ) (ptr : ℕ) (b : Bool)
    → Holds length a mem t v ptr b
    → destroy a mem ≡ ok (record a { object_ptr = none; aligned_ptr = none }) (update mem ptr none)
unfolding destroy call_destruct
destroy-Holds length a mem t v ptr b h =
    rw (h.pointer, h.destructor, check-ok mem t ptr h.aligned, end-ok mem t ptr h.stored)

pub destroy-empty : (a : FixedAny) (mem : Memory) → a.object_ptr ≡ none → destroy a mem ≡ ok a mem
unfolding destroy
destroy-empty a mem e = rw e

-- `assign` of a value to an empty container: on the branch that `fits` decides.
assign_value-eq :
    (length fresh : ℕ) (a : FixedAny) (t : ObjectType) (v : ℕ) (mem : Memory)
    → a.object_ptr ≡ none
    → assign_value length fresh a t v mem ≡ (
        let ptr = address length fresh a t in
        let aligned = if fits length t then some ptr else none in
        ok
          (filled a aligned ptr t (not (fits length t)))
          (update mem ptr (some (record { type = t; value = some v }))))
unfolding assign_value construct
assign_value-eq length fresh a t v mem e = rw (destroy-empty a mem e) (ground arith)

filled-Holds :
    (length fresh : ℕ) (a : FixedAny) (t : ObjectType) (v : ℕ) (mem : Memory)
    → 0 < t.align
    → fresh % t.align ≡ 0
    → let ptr = address length fresh a t in
      Holds length
        (filled a (if fits length t then some ptr else none) ptr t (not (fits length t)))
        (update mem ptr (some (record { type = t; value = some v })))
        t
        (some v)
        ptr
        (not (fits length t))
filled-Holds length fresh a t v mem pos aligned = elim (Bool-cases (fits length t)) [
  | inl e ↦ rw e (record {
    pointer = refl;
    stored = ground arith;
    destructor = refl;
    mover = refl;
    aligned = align_up-mod t.align a.storage pos;
    place = (refl, le-align_up t.align a.storage pos, inside e);
  })
  | inr e ↦ rw e (record {
    pointer = refl;
    stored = ground arith;
    destructor = refl;
    mover = refl;
    aligned = aligned;
    place = refl;
  })
]
  where
    inside : fits length t ≡ true → align_up t.align a.storage + t.size ≤ a.storage + length
    inside e =
        omega (arith, align_up-lt t.align a.storage pos, leb→le (t.size + t.align - 1) length e)

-- `assign` of a value to an empty container never aborts. The container then holds the value, at an
-- address that is aligned for its type: inside the buffer exactly when `sizeof(T) + alignof(T) - 1`
-- bytes fit, else on the heap. No other object in memory changes.
pub assign_value-Holds :
    (length fresh : ℕ) (a : FixedAny) (t : ObjectType) (v : ℕ) (mem : Memory)
    → a.object_ptr ≡ none
    → 0 < t.align
    → fresh % t.align ≡ 0
    → (a' : FixedAny) × (mem' : Memory) × (assign_value length fresh a t v mem ≡ ok a' mem')
      × Holds length a' mem' t (some v) (address length fresh a t) (not (fits length t))
      × ((q : ℕ) → q ≢ address length fresh a t → mem' q ≡ mem q)
assign_value-Holds length fresh a t v mem e pos aligned = (
  filled a (if fits length t then some ptr else none) ptr t (not (fits length t)),
  update mem ptr (some (record { type = t; value = some v })),
  assign_value-eq length fresh a t v mem e,
  filled-Holds length fresh a t v mem pos aligned,
  λ q ne. ground arith,
)
  where
    ptr : ℕ
    ptr = address length fresh a t

-- `assign` of a value to a container that holds an object ends that object before anything else.
assign_value-replace :
    (length fresh : ℕ) (a : FixedAny) (t old : ObjectType) (v : ℕ) {w : Option ℕ} {ptr : ℕ}
    {b : Bool} (mem : Memory)
    → Holds length a mem old w ptr b
    → assign_value length fresh a t v mem
      ≡ assign_value length fresh
          (record a { object_ptr = none; aligned_ptr = none })
          t
          v
          (update mem ptr none)
unfolding assign_value
assign_value-replace length fresh a t old v {w} {ptr} {b} mem h =
    let cleared : FixedAny = record a { object_ptr = none; aligned_ptr = none } in
    rw (destroy-Holds length a mem old w ptr b h, destroy-empty cleared (update mem ptr none) refl)
