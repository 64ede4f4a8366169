-- ===== src/Fixed.antt =====
-- Fixed-point numbers in thousandths: a concrete `Float` at which theorems over the interface are
-- tried, and which meets its laws.
use native.Mathlib.Nat.{div-lt_iff_lt-mul}
use forge_labs.Base.{
  ◌≤◌, ◌<◌, suc, ◌*◌, ◌/◌, ◌≡◌, ◌⊎◌, true, arith, ℤ, pos, negsuc, ◌+ℤ◌, ◌-ℤ◌, ◌*ℤ◌, ltb_ℤ, +ℤ_parts,
  -ℤ_parts, eq_of_parts, Float, IsOrdered, IsMonotone, IsGraded, refl, false,
}

abbrev pub quotient : ℤ → ℤ → ℤ
quotient (pos a) (pos b) = pos (a * 1000 / b)
quotient (pos a) (negsuc b) = pos 0 -ℤ pos (a * 1000 / suc b)
quotient (negsuc a) (pos b) = pos 0 -ℤ pos (suc a * 1000 / b)
quotient (negsuc a) (negsuc b) = pos (suc a * 1000 / suc b)

abbrev pub product : ℤ → ℤ → ℤ
product a b = quotient (a *ℤ b) (pos 1_000_000)

instance abbrev pub fixed : Float ℤ
fixed = record {
  lt = ltb_ℤ;
  add = λ a b. a +ℤ b;
  sub = λ a b. a -ℤ b;
  mul = product;
  div = quotient;
  num = λ n. pos (n * 1000);
}

ltb_ℤ_trans : (a b c : ℤ) → ltb_ℤ a b ≡ true → ltb_ℤ b c ≡ true → ltb_ℤ a c ≡ true
ltb_ℤ_trans a b c h k = ground arith

ltb_ℤ_total : (a b : ℤ) → (ltb_ℤ a b ≡ true) ⊎ (a ≡ b) ⊎ (ltb_ℤ b a ≡ true)
ltb_ℤ_total a b = ground (arith, eq_of_parts a b)

pub fixed-IsOrdered : IsOrdered fixed
fixed-IsOrdered = record {
  lt_irrefl = λ a. ground arith;
  lt_trans = ltb_ℤ_trans;
  lt_total = ltb_ℤ_total;
}

pub fixed-IsMonotone : IsMonotone fixed
fixed-IsMonotone = record {
  sub_one_le = λ a. ground (arith, -ℤ_parts a (pos 1000));
  le_add = λ a b h. ground (arith, +ℤ_parts a b);
  le_add_left = λ a b h. ground (arith, +ℤ_parts a b);
}

fixed_mul_nonneg :
    (a b : ℤ)
    → ltb_ℤ a (pos 0) ≡ false
    → ltb_ℤ b (pos 0) ≡ false
    → ltb_ℤ (product a b) (pos 0) ≡ false
unfolding ◌*ℤ◌
fixed_mul_nonneg (pos a) (pos b) h k = ground arith
fixed_mul_nonneg (pos a) (negsuc b) h k = ground arith
fixed_mul_nonneg (negsuc a) b h k = ground arith

fixed_div_nonneg :
    (a b : ℤ)
    → ltb_ℤ a (pos 0) ≡ false
    → ltb_ℤ (pos 0) b ≡ true
    → ltb_ℤ (quotient a b) (pos 0) ≡ false
fixed_div_nonneg (pos a) (pos b) h k = ground arith
fixed_div_nonneg (pos a) (negsuc b) h k = ground arith
fixed_div_nonneg (negsuc a) b h k = ground arith

fixed_div-le-one :
    (a b : ℤ) → ltb_ℤ b a ≡ false → ltb_ℤ (pos 0) b ≡ true → ltb_ℤ (pos 1000) (quotient a b) ≡ false
unfolding ◌-ℤ◌
fixed_div-le-one (pos a) (pos b) h k =
    let small : a ≤ b = ground arith in
    let some_b : 0 < b = ground arith in
    let q : a * 1000 / b < 1001 = (div-lt_iff_lt-mul some_b).1 (omega arith) in ground (arith, q)
fixed_div-le-one (negsuc a) (pos b) h k = ground arith
fixed_div-le-one a (negsuc b) h k = ground arith

pub fixed-IsGraded : IsGraded fixed
fixed-IsGraded = record {
  num_mono = λ m n h. ground arith;
  zero-lt-one = refl;
  add_nonneg = λ a b h k. ground (arith, +ℤ_parts a b);
  mul_nonneg = fixed_mul_nonneg;
  div_nonneg = fixed_div_nonneg;
  div-le-one = fixed_div-le-one;
  sub_nonneg = λ a b h. ground (arith, -ℤ_parts b a);
  sub_le = λ a b h. ground (arith, -ℤ_parts b a);
}
