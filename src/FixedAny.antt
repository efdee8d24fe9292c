-- ===== src/FixedAny.antt =====
-- include/minicomps/fixed_any.h: a container for one object of any type, with a buffer of its own
-- for small objects and the heap for the others.
pub mod Alignment
pub mod Lifecycle
pub mod Moves
use minicomps.Prelude.{
  ℕ, ◌+◌, ◌-◌, ◌%◌, Bool, true, false, Option, none, some, ◌==◌, leb, if◌then◌else◌, update, ok,
  abort, undefined, Cmd, pure, ◌>>=◌, ◌>>◌,
}

-- `sizeof` and `alignof` of a type `T`, and which type it is.
pub record ObjectType : Type 0 where
  pub id : ℕ
  pub size : ℕ
  pub align : ℕ

-- An object in memory; `none` is a value that has been moved out of it.
pub record Object : Type 0 where
  pub type : ObjectType
  pub value : Option ℕ

-- The objects that live, by address.
abbrev pub Memory : Type 0
Memory = ℕ → Option Object

-- One of the two pairs of lambdas that `assign` stores: for the buffer, or for the heap.
pub record Functions : Type 0 where
  pub type : ObjectType
  pub on_heap : Bool

-- `storage` is the address of `storage_`; `none` in a pointer is null, in a function it is empty.
pub record FixedAny : Type 0 where
  pub storage : ℕ
  pub aligned_ptr : Option ℕ
  pub object_ptr : Option ℕ
  pub destruct : Option Functions
  pub move_construct : Option Functions

abbrev pub empty : ℕ → FixedAny
empty storage = record {
  storage = storage;
  aligned_ptr = none;
  object_ptr = none;
  destruct = none;
  move_construct = none;
}

unfoldable pub check_alignment : ObjectType → ℕ → Cmd Memory (Unit {0})
check_alignment t ptr = if ptr % t.align == 0 then pure tt else λ _. abort

-- `new (ptr) T(...)`, and the allocation of `new T(...)` at the address `ptr`.
unfoldable pub construct : ObjectType → ℕ → Option ℕ → Cmd Memory (Unit {0})
construct t ptr v mem = ok tt (update mem ptr (some (record { type = t; value = v })))

-- The object of type `T` at an address; any other use of the address is undefined.
unfoldable pub object_at : ObjectType → ℕ → Cmd Memory Object
object_at t ptr mem = elim (mem ptr) [
  | none ↦ undefined
  | some o ↦ if o.type.id == t.id then ok o mem else undefined
]

-- `ptr->~T()`, and `delete`.
unfoldable pub end_object : ObjectType → ℕ → Cmd Memory (Unit {0})
end_object t ptr = do object_at t ptr; (λ mem. ok tt (update mem ptr none))

-- `destruct_(ptr)`; without exceptions the call of an empty `std::function` aborts.
unfoldable pub call_destruct : Option Functions → ℕ → Cmd Memory (Unit {0})
call_destruct none ptr = λ _. abort
call_destruct (some f) ptr = do check_alignment f.type ptr; end_object f.type ptr

unfoldable pub destroy : FixedAny → Cmd Memory FixedAny
destroy a = elim a.object_ptr [
  | none ↦ pure a
  | some ptr ↦ do
    call_destruct a.destruct ptr
    pure (record a { object_ptr = none; aligned_ptr = none })
]

-- `T(std::move(*source))` at `target`.
pub move_object : ObjectType → ℕ → ℕ → Cmd Memory ℕ
move_object t target source = do
  o ← object_at t source
  construct t target o.value
  (λ mem. ok tt (update mem source (some (record o { value = none }))))
  pure target

-- `move_construct_(target, source)`. `fresh` is the address that `new` returns.
unfoldable pub call_move_construct : ℕ → Option Functions → Option ℕ → Option ℕ → Cmd Memory ℕ
unfolding move_object
call_move_construct fresh none target source = λ _. abort
call_move_construct fresh (some f) target none = λ _. undefined
call_move_construct fresh (some f) none (some source) =
    if f.on_heap then (do check_alignment f.type source; move_object f.type fresh source) else λ _.
    undefined
call_move_construct fresh (some f) (some target) (some source) =
    if f.on_heap then (do check_alignment f.type source; move_object f.type fresh source) else (do
      check_alignment f.type target
      check_alignment f.type source
      move_object f.type target source)

-- `storage_ + other.aligned_diff()`
abbrev pub rebase : ℕ → FixedAny → Option ℕ
rebase storage other = elim other.aligned_ptr [
  | none ↦ none
  | some ptr ↦ some (storage + (ptr - other.storage))
]

-- `assign(fixed_any&& other)`; the result is the container and `other` after it.
unfoldable pub assign_move : ℕ → FixedAny → FixedAny → Cmd Memory (FixedAny × FixedAny)
assign_move fresh a other = do
  a ← destroy a
  let target = rebase a.storage other
  object ← call_move_construct fresh other.move_construct target other.object_ptr
  other' ← destroy other
  pure (
    record a {
      aligned_ptr = target;
      object_ptr = some object;
      destruct = other'.destruct;
      move_construct = other'.move_construct;
    },
    record other' { destruct = none; move_construct = none },
  )

-- `std::align`: the first address from `ptr` on that the alignment divides.
unfoldable pub align_up : ℕ → ℕ → ℕ
align_up align ptr = ptr + (align - ptr % align) % align

-- `assign(T&& value)` with a buffer of `length` bytes.
unfoldable pub assign_value : ℕ → ℕ → FixedAny → ObjectType → ℕ → Cmd Memory FixedAny
assign_value length fresh a t v = do
  a ← destroy a
  if leb (t.size + t.align - 1) length
      then (do
        let ptr = align_up t.align a.storage
        construct t ptr (some v)
        pure (record a {
          aligned_ptr = some ptr;
          object_ptr = some ptr;
          destruct = some (record { type = t; on_heap = false });
          move_construct = some (record { type = t; on_heap = false });
        }))
      else (do
        construct t fresh (some v)
        pure (record a {
          aligned_ptr = none;
          object_ptr = some fresh;
          destruct = some (record { type = t; on_heap = true });
          move_construct = some (record { type = t; on_heap = true });
        }))

-- The constructor `fixed_any(fixed_any&&)` of a container at `storage`.
unfoldable pub move_constructor : ℕ → ℕ → FixedAny → Cmd Memory (FixedAny × FixedAny)
move_constructor fresh storage other = assign_move fresh (empty storage) other

-- `get_object_ptr` and, for the type that was written, `get`.
unfoldable pub get_object_ptr : FixedAny → Option ℕ
get_object_ptr a = a.object_ptr
