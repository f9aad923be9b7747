-- ===== src/Base/Int.antt =====
-- The whole numbers over the native natural numbers: `negsuc n` is the number below zero by n + 1.
use Prim.Native.Nat.{ℕ}
use world_engine.Base.Tests.{ltb}
use mathlib.Core.Bool.{Bool, true, false}

pub data ℤ : Type 0 where
  pos negsuc : ℕ → ℤ

abbrev pub ltb_int : ℤ → ℤ → Bool
ltb_int (pos a) (pos b) = ltb a b
ltb_int (pos a) (negsuc b) = false
ltb_int (negsuc a) (pos b) = true
ltb_int (negsuc a) (negsuc b) = ltb b a
