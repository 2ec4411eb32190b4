-- ===== src/Base/Xor.antt =====
-- `^` on bytes. The native operation has no laws at variables, so they are checked for all pairs of
-- bytes by evaluation.
use Prim.Native.Nat.{ℕ, zero, suc, ◌+◌, ◌≤◌, ◌<◌, bit_xor}
use mathlib.Core.Path.{◌≡◌, refl}
use mathlib.Core.Bool.{Bool, true, ◌&&◌, ◌||◌, not}
use native.Mathlib.Omega.{arith}
use mathlib.Core.Logic.{inl, inr}
use suda_gureum.Base.Tests.{◌==◌, ltb, Bool-cases}

-- The test at `from`, and at the `count` numbers after it.
passes : ℕ → ℕ → (ℕ → Bool) → Bool
passes from zero test = test from
passes from (suc count) test = test from && passes (suc from) count test

passes-at :
    (from count : ℕ) (test : ℕ → Bool)
    → passes from count test ≡ true
    → (b : ℕ) → from ≤ b
    → b ≤ from + count
    → test b ≡ true
unfolding passes
passes-at from zero test ok b low high = let same : b ≡ from = omega arith in rw (same, ok)
passes-at from (suc count) test ok b low high = elim (Bool-cases (from == b)) [
  | inl here ↦
      let same : b ≡ from = ground arith in
      let head : test from ≡ true = ground arith in rw (same, head)
  | inr later ↦ passes-at (suc from) count test (ground arith) b (ground arith) (omega arith)
]

byte_test : (ℕ → Bool) → Bool
byte_test = passes 0 255

byte_test-at : (test : ℕ → Bool) → byte_test test ≡ true → (b : ℕ) → b < 256 → test b ≡ true
unfolding byte_test
byte_test-at test ok b small = passes-at 0 255 test ok b (omega arith) (omega arith)

-- Undoing, the bound, and that zero and only zero leaves a byte alone.
abbrev xor_facts : ℕ → ℕ → Bool
xor_facts k x =
    (bit_xor (bit_xor x k) k == x)
    && ltb (bit_xor x k) 256
    && (not (bit_xor x k == x) || k == 0)
    && (not (k == 0) || bit_xor x k == x)

xor_row : ℕ → Bool
xor_row k = byte_test (xor_facts k)

xor_table : byte_test xor_row ≡ true
unfolding byte_test passes xor_row
xor_table = refl

xor_facts_hold : (x k : ℕ) → x < 256 → k < 256 → xor_facts k x ≡ true
unfolding xor_row
xor_facts_hold x k hx hk = byte_test-at (xor_facts k) (byte_test-at xor_row xor_table k hk) x hx

pub bit_xor_twice : (x k : ℕ) → x < 256 → k < 256 → bit_xor (bit_xor x k) k ≡ x
bit_xor_twice x k hx hk = ground (arith, xor_facts_hold x k hx hk)

pub bit_xor-lt : (x k : ℕ) → x < 256 → k < 256 → bit_xor x k < 256
bit_xor-lt x k hx hk = ground (arith, xor_facts_hold x k hx hk)

pub bit_xor-eq_self : (x k : ℕ) → x < 256 → k < 256 → bit_xor x k ≡ x → k ≡ 0
bit_xor-eq_self x k hx hk e = ground (arith, xor_facts_hold x k hx hk)

pub bit_xor-zero : (x : ℕ) → x < 256 → bit_xor x 0 ≡ x
bit_xor-zero x hx = ground (arith, xor_facts_hold x 0 hx)
