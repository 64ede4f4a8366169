-- ===== src/Base/Floats.antt =====
-- Go's `float64` as an interface: the operations that the program uses, over an abstract carrier,
-- with the laws of IEEE arithmetic on numbers (no NaN, and one zero) that the proofs rely on.
use Prim.Native.Nat.{ℕ, suc, ◌≤◌}
use mathlib.Core.Path.{◌≡◌}
use mathlib.Core.Logic.{◌⊎◌}
use mathlib.Core.Bool.{Bool, true, false}
use native.Mathlib.Omega.{arith}
use forge_labs.Base.Int.{ℤ, pos, negsuc}

pub record Float (F : Type 0) : Type 0 where
  pub lt : F → F → Bool
  pub add : F → F → F
  pub sub : F → F → F
  pub mul : F → F → F
  pub div : F → F → F
  -- The conversion of an unsigned integer; a literal is a quotient of two such.
  pub num : ℕ → F

-- `float64` compares as a total order.
pub record IsOrdered {F : Type 0} (f : Float F) : Type 0 where
  pub lt_irrefl : (a : F) → f.lt a a ≡ false
  pub lt_trans : (a b c : F) → f.lt a b ≡ true → f.lt b c ≡ true → f.lt a c ≡ true
  pub lt_total : (a b : F) → (f.lt a b ≡ true) ⊎ (a ≡ b) ⊎ (f.lt b a ≡ true)

-- Rounding is monotone: taking 1 off does not increase a number, adding what is not negative
-- does not decrease it.
pub record IsMonotone {F : Type 0} (f : Float F) : Type 0 where
  pub sub_one_le : (a : F) → f.lt a (f.sub a (f.num 1)) ≡ false
  pub le_add : (a b : F) → f.lt b (f.num 0) ≡ false → f.lt (f.add a b) a ≡ false
  pub le_add_left : (a b : F) → f.lt a (f.num 0) ≡ false → f.lt (f.add a b) b ≡ false

-- Signs and the bounds 0 and 1 survive rounding.
pub record IsGraded {F : Type 0} (f : Float F) : Type 0 where
  pub num_mono : (m n : ℕ) → m ≤ n → f.lt (f.num n) (f.num m) ≡ false
  pub zero-lt-one : f.lt (f.num 0) (f.num 1) ≡ true
  pub add_nonneg :
      (a b : F)
      → f.lt a (f.num 0) ≡ false
      → f.lt b (f.num 0) ≡ false
      → f.lt (f.add a b) (f.num 0) ≡ false
  pub mul_nonneg :
      (a b : F)
      → f.lt a (f.num 0) ≡ false
      → f.lt b (f.num 0) ≡ false
      → f.lt (f.mul a b) (f.num 0) ≡ false
  pub div_nonneg :
      (a b : F)
      → f.lt a (f.num 0) ≡ false
      → f.lt (f.num 0) b ≡ true
      → f.lt (f.div a b) (f.num 0) ≡ false
  pub div-le-one :
      (a b : F) → f.lt b a ≡ false → f.lt (f.num 0) b ≡ true → f.lt (f.num 1) (f.div a b) ≡ false
  pub sub_nonneg : (a b : F) → f.lt b a ≡ false → f.lt (f.sub b a) (f.num 0) ≡ false
  pub sub_le : (a b : F) → f.lt a (f.num 0) ≡ false → f.lt b (f.sub b a) ≡ false

module _ {F : Type 0} (f : Float F) (o : IsOrdered f) where
  -- `a <= b` and `b <= c` give `a <= c`.
  pub le_trans_float : (a b c : F) → f.lt b a ≡ false → f.lt c b ≡ false → f.lt c a ≡ false
  le_trans_float a b c h k =
      ground (arith, o.lt_total a b, o.lt_total b c, o.lt_trans c a b, o.lt_trans c b a)

  -- `a < b` and `b <= c` give `a < c`.
  pub lt_le_trans_float : (a b c : F) → f.lt a b ≡ true → f.lt c b ≡ false → f.lt a c ≡ true
  lt_le_trans_float a b c h k = ground (arith, o.lt_total b c, o.lt_trans a b c)

  pub lt_asymm_float : (a b : F) → f.lt a b ≡ true → f.lt b a ≡ false
  lt_asymm_float a b h = ground (arith, o.lt_irrefl a, o.lt_trans a b a)

-- The conversion of a signed integer.
abbrev pub of_ℤ : {F : Type 0} ⦃f : Float F⦄ → ℤ → F
of_ℤ ⦃f⦄ (pos n) = f.num n
of_ℤ ⦃f⦄ (negsuc n) = f.sub (f.num 0) (f.num (suc n))
