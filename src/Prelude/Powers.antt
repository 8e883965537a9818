-- ===== src/Prelude/Powers.antt =====
-- Powers of two on the native numbers.
use native.Mathlib.Nat.{mul_assoc, pow-succ', one-le-pow}
use Prim.Native.Nat.{ℕ, suc, ◌*◌, ◌^◌, ◌≤◌}
use mathlib.Core.Path.{◌≡◌, sym}
use native.Mathlib.Omega.{arith}

pub mul-two-pow : (n rounds : ℕ) → n * 2 ^ suc rounds ≡ n * 2 * 2 ^ rounds
mul-two-pow n rounds = rw (pow-succ' 2 rounds) (sym (mul_assoc n 2 (2 ^ rounds)))

pub le-mul-pow : (n rounds : ℕ) → n ≤ n * 2 ^ rounds
le-mul-pow n rounds = let one : 1 ≤ 2 ^ rounds = one-le-pow rounds 2 (omega arith) in grind arith
