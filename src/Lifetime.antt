-- ===== src/Lifetime.antt =====
-- include/minicomps/lifetime.h: tokens by which a sender makes its outstanding calls void.
pub mod Expiry
use minicomps.Prelude.{
  ℕ, ◌+◌, Bool, true, not, Option, none, some, [], Map, find, put, erase, any, ◌==◌,
}

-- The `lifetime` objects with the block that each one's `ptr_` owns. A copy owns the same block.
pub record Lifetimes : Type 0 where
  pub objects : Map ℕ
  pub next_token : ℕ

abbrev pub empty : Lifetimes
empty = record { objects = []; next_token = 0 }

-- The default constructor of the object `i`, and `reset`: `ptr_ = std::make_shared<int>()`.
unfoldable pub reset : ℕ → Lifetimes → Lifetimes
reset i l = record { objects = put i l.next_token l.objects; next_token = l.next_token + 1 }

-- The copy constructor: the object `j` as a copy of `i`.
unfoldable pub copy : ℕ → ℕ → Lifetimes → Lifetimes
copy i j l = elim (find i l.objects) [
  | none ↦ l
  | some t ↦ record l { objects = put j t l.objects }
]

unfoldable pub destroy : ℕ → Lifetimes → Lifetimes
destroy i l = record l { objects = erase i l.objects }

-- A weak pointer to the block of the object `i`.
unfoldable pub create_weak_ptr : Lifetimes → ℕ → Option ℕ
create_weak_ptr l i = find i l.objects

-- A weak pointer has expired: it is empty, or no object owns its block.
unfoldable pub expired : Lifetimes → Option ℕ → Bool
expired l none = true
expired l (some t) = not (any (λ o. o.1 == t) l.objects)
