-- ===== src/Prelude/Int.antt =====
-- Signed integers of a request, compared with the natural numbers of a table.
use Prim.Native.Nat.{ℕ}
use mathlib.Core.Bool.{Bool, true, false}
use ai_home_assistant.Prelude.Tests.{ltb, leb}

-- `negsuc n` is -(n + 1).
pub data ℤ : Type 0 where
  pos : ℕ → ℤ
  negsuc : ℕ → ℤ

-- n >= z
abbrev pub at_least : ℕ → ℤ → Bool
at_least n (pos m) = leb m n
at_least n (negsuc _) = true

-- n <= z
abbrev pub at_most : ℕ → ℤ → Bool
at_most n (pos m) = leb n m
at_most n (negsuc _) = false

-- n < z
abbrev pub below : ℕ → ℤ → Bool
below n (pos m) = ltb n m
below n (negsuc _) = false
