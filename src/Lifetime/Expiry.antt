-- ===== src/Lifetime/Expiry.antt =====
-- Which weak pointers of lifetime.h a `reset` or a destructor makes void.
use minicomps.Prelude.{
  ℕ, ◌+◌, ◌<◌, ◌≤◌, ◌≡◌, ◌≢◌, refl, Bool, true, false, not, ◌&&◌, ◌||◌, none, some, [], ◌∷◌, arith,
  ◌==◌, any, Map, find, put, erase, find-put, find-erase, inl, inr, Option-cases,
}
use minicomps.Lifetime.{Lifetimes, reset, copy, destroy, create_weak_ptr, expired}

-- Some object other than `i` owns the block.
abbrev pub owned_by_other : ℕ → ℕ → Map ℕ → Bool
owned_by_other i t [] = false
owned_by_other i t ((j, s) ∷ m) = (not (j == i) && s == t) || owned_by_other i t m

abbrev pub owned : ℕ → Map ℕ → Bool
owned t = any (λ o. o.1 == t)

-- An object has one block.
abbrev pub IsDistinct : Map ℕ → Type 0
IsDistinct [] = Unit
IsDistinct ((k, v) ∷ m) = (find k m ≡ none) × IsDistinct m

abbrev pub AllBelow : ℕ → Map ℕ → Type 0
AllBelow n [] = Unit
AllBelow n ((k, v) ∷ m) = (v < n) × AllBelow n m

pub record IsValid (l : Lifetimes) : Type 0 where
  pub distinct : IsDistinct l.objects
  pub below : AllBelow l.next_token l.objects

owned_missing : (i t : ℕ) (m : Map ℕ) → find i m ≡ none → owned t m ≡ owned_by_other i t m
unfolding find
owned_missing i t [] e = refl
owned_missing i t ((j, s) ∷ m) e = ground (arith, owned_missing i t m)

owned-put :
    (i t s : ℕ) (m : Map ℕ) → s ≢ t → IsDistinct m → owned t (put i s m) ≡ owned_by_other i t m
unfolding put
owned-put i t s [] ne d = ground arith
owned-put i t s ((j, w) ∷ m) ne d =
    ground (arith, owned-put i t s m ne d.1, owned_missing j t m d.0)

owned-erase : (i t : ℕ) (m : Map ℕ) → owned t (erase i m) ≡ owned_by_other i t m
unfolding erase
owned-erase i t [] = refl
owned-erase i t ((j, w) ∷ m) = ground (arith, owned-erase i t m)

owned-find : (i t : ℕ) (m : Map ℕ) → find i m ≡ some t → owned t m ≡ true
unfolding find
owned-find i t [] e = cc
owned-find i t ((j, w) ∷ m) e = ground (arith, owned-find i t m)

-- `reset` of an object makes void exactly the weak pointers, among those to blocks made before, that
-- no other object still owns; the new weak pointer of the object is not void.
pub expired-reset :
    (i t : ℕ) (l : Lifetimes)
    → IsValid l
    → t < l.next_token
    → (expired (reset i l) (some t) ≡ not (owned_by_other i t l.objects))
      × (expired (reset i l) (create_weak_ptr (reset i l) i) ≡ false)
unfolding expired reset create_weak_ptr
expired-reset i t l v h = (
  rw (owned-put i t l.next_token l.objects (λ e. omega arith) v.distinct),
  ground (
    arith,
    find-put i i l.next_token l.objects,
    owned-find i l.next_token (put i l.next_token l.objects),
  ),
)

-- So does the destructor.
pub expired-destroy :
    (i t : ℕ) (l : Lifetimes) → expired (destroy i l) (some t) ≡ not (owned_by_other i t l.objects)
unfolding expired destroy
expired-destroy i t l = rw (owned-erase i t l.objects)

IsDistinct-put : (i s : ℕ) (m : Map ℕ) → IsDistinct m → IsDistinct (put i s m)
unfolding put find
IsDistinct-put i s [] d = (refl, tt)
IsDistinct-put i s ((j, w) ∷ m) d = ground (arith, find-put i j s m, IsDistinct-put i s m d.1)

IsDistinct-erase : (i : ℕ) (m : Map ℕ) → IsDistinct m → IsDistinct (erase i m)
unfolding erase
IsDistinct-erase i [] d = tt
IsDistinct-erase i ((j, w) ∷ m) d = ground (arith, find-erase i j m, IsDistinct-erase i m d.1)

AllBelow-mono : (k n : ℕ) (m : Map ℕ) → k ≤ n → AllBelow k m → AllBelow n m
AllBelow-mono k n [] h b = tt
AllBelow-mono k n ((j, w) ∷ m) h b = (omega arith, AllBelow-mono k n m h b.1)

AllBelow-put : (i s n : ℕ) (m : Map ℕ) → AllBelow n m → s < n → AllBelow n (put i s m)
unfolding put
AllBelow-put i s n [] b h = (h, tt)
AllBelow-put i s n ((j, w) ∷ m) b h = ground (arith, AllBelow-put i s n m b.1)

AllBelow-erase : (i n : ℕ) (m : Map ℕ) → AllBelow n m → AllBelow n (erase i m)
unfolding erase
AllBelow-erase i n [] b = tt
AllBelow-erase i n ((j, w) ∷ m) b = ground (arith, AllBelow-erase i n m b.1)

AllBelow-find : (i n t : ℕ) (m : Map ℕ) → AllBelow n m → find i m ≡ some t → t < n
unfolding find
AllBelow-find i n t [] b e = absurd (cc)
AllBelow-find i n t ((j, w) ∷ m) b e = ground (arith, AllBelow-find i n t m b.1)

-- Every operation keeps one block for each object, and names new blocks apart from the old ones.
lifetimes-IsValid :
    (i j : ℕ) (l : Lifetimes)
    → IsValid l
    → IsValid (reset i l) × IsValid (copy i j l) × IsValid (destroy i l)
unfolding reset copy destroy
lifetimes-IsValid i j l v = (
  record {
    distinct = IsDistinct-put i l.next_token l.objects v.distinct;
    below =
        AllBelow-put i l.next_token (l.next_token + 1) l.objects
          (AllBelow-mono l.next_token (l.next_token + 1) l.objects (omega arith) v.below)
          (omega arith);
  },
  elim (Option-cases (find i l.objects)) [
    | inl e ↦ rw (e, copy) v
    | inr (t, e) ↦
        rw (e, copy)
          (record {
            distinct = IsDistinct-put j t l.objects v.distinct;
            below =
                AllBelow-put j t l.next_token l.objects v.below
                  (AllBelow-find i l.next_token t l.objects v.below e);
          })
  ],
  record {
    distinct = IsDistinct-erase i l.objects v.distinct;
    below = AllBelow-erase i l.next_token l.objects v.below;
  },
)

owned_by_other-find :
    (i j t : ℕ) (m : Map ℕ) → find j m ≡ some t → j ≢ i → owned_by_other i t m ≡ true
unfolding find
owned_by_other-find i j t [] e ne = cc
owned_by_other-find i j t ((k, w) ∷ m) e ne = ground (arith, owned_by_other-find i j t m)

-- A copy keeps the weak pointers of the original valid when the original is destroyed.
copy-destroy :
    (i j : ℕ) (l : Lifetimes) {t : ℕ}
    → create_weak_ptr l i ≡ some t
    → i ≢ j
    → expired (destroy i (copy i j l)) (create_weak_ptr l i) ≡ false
unfolding copy create_weak_ptr
copy-destroy i j l {t} e ne =
    rw (e, copy, expired-destroy i t (record l { objects = put j t l.objects }))
      (ground (arith, owned_by_other-find i j t (put j t l.objects), find-put j j t l.objects))
