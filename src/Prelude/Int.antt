-- ===== src/Prelude/Int.antt =====
-- Signed integers over the native numbers, under the library's names, with their order.
use Prim.Native.Nat.{ℕ, suc, ◌+◌, ◌-◌, ◌<◌}
use mathlib.Core.Path.{◌≡◌, ap}
use mathlib.Core.Bool.{Bool}
use native.Mathlib.Decide.{ℕ_discrete}
use native.Mathlib.Omega.{arith}
use propagul.Prelude.Tests.{ltb, if◌then◌else◌}

-- `negsuc n` is -(n + 1).
pub data ℤ : Type 0 where
  pos : ℕ → ℤ
  negsuc : ℕ → ℤ

unfoldable pub dec_int : Discrete ℤ
unfolding ℕ_discrete
dec_int (pos a) (pos b) = elim (ℕ_discrete a b) [ yes p ↦ yes (ap pos p) | no p ↦ no (λ e. p (cc)) ]
dec_int (pos a) (negsuc b) = no (λ e. cc)
dec_int (negsuc a) (pos b) = no (λ e. cc)
dec_int (negsuc a) (negsuc b) = elim (ℕ_discrete a b) [
  | yes p ↦ yes (ap negsuc p)
  | no p ↦ no (λ e. p (cc))
]

abbrev pub pos_part : ℤ → ℕ
pos_part (pos n) = n
pos_part (negsuc n) = 0

abbrev pub neg_part : ℤ → ℕ
neg_part (pos n) = 0
neg_part (negsuc n) = suc n

infix 50 ◌<ℤ◌
abbrev pub ◌<ℤ◌ : ℤ → ℤ → Type 0
a <ℤ b = pos_part a + neg_part b < pos_part b + neg_part a

abbrev pub ltb_ℤ : ℤ → ℤ → Bool
ltb_ℤ a b = ltb (pos_part a + neg_part b) (pos_part b + neg_part a)

pub eq_of_parts : (a b : ℤ) → pos_part a + neg_part b ≡ pos_part b + neg_part a → a ≡ b
eq_of_parts a b h = ground arith

infix 60 ◌+ℤ◌
abbrev pub ◌+ℤ◌ : ℤ → ℤ → ℤ
a +ℤ b =
    let up = pos_part a + pos_part b in
    let down = neg_part a + neg_part b in
    if ltb up down then negsuc (down - up - 1) else pos (up - down)
