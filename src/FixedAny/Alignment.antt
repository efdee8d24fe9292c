-- ===== src/FixedAny/Alignment.antt =====
-- The addresses that `assign` of fixed_any.h computes.
use native.Mathlib.Nat.{
  mod-lt, mod-eq_of_lt, mod_self, div-add-mod, mul-mod_right, dvd_of_mod-eq-zero,
  mod-eq-zero_of_dvd, sub-zero, dvd-add, dvd-sub,
}
use minicomps.Prelude.{ℕ, ◌+◌, ◌-◌, ◌*◌, ◌/◌, ◌%◌, ◌≤◌, ◌<◌, ◌≡◌, inl, inr, arith, ◌==◌, Bool-cases}
use minicomps.FixedAny.{align_up}

module _ (align ptr : ℕ) (h : 0 < align) where
  pub align_up-mod : align_up align ptr % align ≡ 0
  unfolding align_up
  align_up-mod = elim (Bool-cases (ptr % align == 0)) [
    | inl e ↦
        let r : ptr % align ≡ 0 = ground arith in
        let full : (align - 0) % align ≡ 0 = rw sub-zero (mod_self align) in
        let same : ptr + (align - ptr % align) % align ≡ ptr = rw r (omega (arith, full)) in
        rw same r
    | inr e ↦
        let r : 0 < ptr % align = ground arith in
        let small : (align - ptr % align) % align ≡ align - ptr % align =
          mod-eq_of_lt (omega arith) in
        let lt = mod-lt ptr h in
        let up : ptr + (align - ptr % align) % align ≡ align * (ptr / align + 1) =
          omega (arith, small, div-add-mod ptr align) in
        rw up (mul-mod_right align (ptr / align + 1))
  ]

  pub align_up-lt : align_up align ptr < ptr + align
  unfolding align_up
  align_up-lt = omega (arith, mod-lt (align - ptr % align) h)

  pub le-align_up : ptr ≤ align_up align ptr
  unfolding align_up
  le-align_up = omega arith

-- Two buffers aligned for `d`: an aligned pointer into one stays aligned in the other.
pub rebase-mod : (x y p d : ℕ) → x % d ≡ 0 → y % d ≡ 0 → p % d ≡ 0 → (x + (p - y)) % d ≡ 0
rebase-mod x y p d hx hy hp = mod-eq-zero_of_dvd d (
    dvd-add d (dvd_of_mod-eq-zero d hx)
      (dvd-sub d (dvd_of_mod-eq-zero d hp) (dvd_of_mod-eq-zero d hy)))
