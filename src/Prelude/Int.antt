-- ===== src/Prelude/Int.antt =====
-- Signed integers over the native numbers, and Go's fixed-width ones: an `int` or `int64` is an
-- integer brought back into range by `wrap64` after each operation, an `int32` by `wrap32`.
use florist_core.Prelude.{
  ℕ, suc, ◌+◌, ◌-◌, ◌*◌, ◌%◌, ◌^◌, ◌≤◌, ◌<◌, ◌≡◌, ◌⊎◌, Bool, ◌&&◌, arith, ltb, leb, if◌then◌else◌,
}

-- `negsuc n` is -(n + 1)
pub data ℤ : Type 0 where
  pos : ℕ → ℤ
  negsuc : ℕ → ℤ

abbrev pub pos_part : ℤ → ℕ
pos_part (pos n) = n
pos_part (negsuc _) = 0

abbrev pub neg_part : ℤ → ℕ
neg_part (pos _) = 0
neg_part (negsuc n) = suc n

abbrev pub sub_ℕ : ℕ → ℕ → ℤ
sub_ℕ a b = if leb b a then pos (a - b) else negsuc (b - a - 1)

infixl 65 ◌+ℤ◌ ◌-ℤ◌
infixl 70 ◌*ℤ◌
infix 50 ◌≤ℤ◌ ◌<ℤ◌
unfoldable pub ◌+ℤ◌ : ℤ → ℤ → ℤ
a +ℤ b = sub_ℕ (pos_part a + pos_part b) (neg_part a + neg_part b)

unfoldable pub ◌-ℤ◌ : ℤ → ℤ → ℤ
a -ℤ b = sub_ℕ (pos_part a + neg_part b) (neg_part a + pos_part b)

unfoldable pub ◌*ℤ◌ : ℤ → ℤ → ℤ
a *ℤ b =
    sub_ℕ (pos_part a * pos_part b + neg_part a * neg_part b)
      (pos_part a * neg_part b + neg_part a * pos_part b)

abbrev pub ◌≤ℤ◌ : ℤ → ℤ → Type 0
a ≤ℤ b = pos_part a + neg_part b ≤ pos_part b + neg_part a

abbrev pub ◌<ℤ◌ : ℤ → ℤ → Type 0
a <ℤ b = pos_part a + neg_part b < pos_part b + neg_part a

abbrev pub ltb_ℤ : ℤ → ℤ → Bool
ltb_ℤ a b = ltb (pos_part a + neg_part b) (pos_part b + neg_part a)

abbrev pub leb_ℤ : ℤ → ℤ → Bool
leb_ℤ a b = leb (pos_part a + neg_part b) (pos_part b + neg_part a)

-- With these the operations can stay shut.
pub +ℤ_parts :
    (a b : ℤ)
    → pos_part (a +ℤ b) + neg_part a + neg_part b ≡ neg_part (a +ℤ b) + pos_part a + pos_part b
unfolding ◌+ℤ◌
+ℤ_parts a b = ground arith

pub -ℤ_parts :
    (a b : ℤ)
    → pos_part (a -ℤ b) + neg_part a + pos_part b ≡ neg_part (a -ℤ b) + pos_part a + neg_part b
unfolding ◌-ℤ◌
-ℤ_parts a b = ground arith

pub eq_of_parts : (a b : ℤ) → pos_part a + neg_part b ≡ pos_part b + neg_part a → a ≡ b
eq_of_parts a b h = ground arith

pub ruleset int_laws = (arith, +ℤ_parts, -ℤ_parts, eq_of_parts)

-- The integer that a 64-bit pattern stands for, in two's complement.
abbrev pub signed64 : ℕ → ℤ
signed64 u = if ltb u (2 ^ 63) then pos u else negsuc (2 ^ 64 - 1 - u)

unfoldable pub wrap64 : ℤ → ℤ
wrap64 (pos n) = signed64 (n % 2 ^ 64)
wrap64 (negsuc n) = signed64 (2 ^ 64 - 1 - n % 2 ^ 64)

abbrev pub signed32 : ℕ → ℤ
signed32 u = if ltb u (2 ^ 31) then pos u else negsuc (2 ^ 32 - 1 - u)

unfoldable pub wrap32 : ℤ → ℤ
wrap32 (pos n) = signed32 (n % 2 ^ 32)
wrap32 (negsuc n) = signed32 (2 ^ 32 - 1 - n % 2 ^ 32)

-- The values of `int64` and of `int32`.
abbrev pub InRange64 : ℤ → Type 0
InRange64 a = (pos_part a < 2 ^ 63) × (neg_part a ≤ 2 ^ 63)

abbrev pub InRange32 : ℤ → Type 0
InRange32 a = (pos_part a < 2 ^ 31) × (neg_part a ≤ 2 ^ 31)

pub wrap64_fits : (a : ℤ) → InRange64 a → wrap64 a ≡ a
unfolding wrap64
wrap64_fits a h = ground arith

pub wrap64-InRange64 : (a : ℤ) → InRange64 (wrap64 a)
unfolding wrap64
wrap64-InRange64 a = ground arith

pub wrap32_fits : (a : ℤ) → InRange32 a → wrap32 a ≡ a
unfolding wrap32
wrap32_fits a h = ground arith

pub wrap32-InRange32 : (a : ℤ) → InRange32 (wrap32 a)
unfolding wrap32
wrap32-InRange32 a = ground arith

-- A wrapped sum is undone by the wrapped difference.
pub wrap64-cancel : (a b : ℤ) → InRange64 a → InRange64 b → wrap64 (wrap64 (a +ℤ b) -ℤ b) ≡ a
unfolding wrap64 ◌+ℤ◌ ◌-ℤ◌
wrap64-cancel a b h k = ground arith

pub wrap32-cancel : (a b : ℤ) → InRange32 a → InRange32 b → wrap32 (wrap32 (a +ℤ b) -ℤ b) ≡ a
unfolding wrap32 ◌+ℤ◌ ◌-ℤ◌
wrap32-cancel a b h k = ground arith

pub wrap64-cancel_sub : (a b : ℤ) → InRange64 a → InRange64 b → wrap64 (wrap64 (a -ℤ b) +ℤ b) ≡ a
unfolding wrap64 ◌+ℤ◌ ◌-ℤ◌
wrap64-cancel_sub a b h k = ground arith

-- The other way round, so that `omega` reads a given equation.
pub parts_of_eq : {a b : ℤ} → a ≡ b → pos_part a + neg_part b ≡ pos_part b + neg_part a
parts_of_eq h = rw h

pub one_sign : (a : ℤ) → (pos_part a ≡ 0) ⊎ (neg_part a ≡ 0)
one_sign a = ground arith

-- With this too, `omega` knows that an integer has one sign.
pub ruleset sign_laws = (int_laws, one_sign)

-- Go's `==` on integers.
abbrev pub eq_ℤ : ℤ → ℤ → Bool
eq_ℤ a b = leb_ℤ a b && leb_ℤ b a
