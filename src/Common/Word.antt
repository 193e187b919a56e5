-- ===== src/Common/Word.antt =====
-- Go's int64, as its two's complement bit pattern: a number below 2 ^ 64, negative from 2 ^ 63 on.
use Prim.Native.Nat.{ℕ, ◌+◌, ◌%◌, ◌^◌}
use mathlib.Core.Bool.{Bool, ◌&&◌}
use xe6_tsy.Common.Tests.{ltb, leb}

abbrev pub sign_bit : ℕ
sign_bit = 2 ^ 63

abbrev pub word_mod : ℕ
word_mod = 2 ^ 64

-- x > 0 for an int64.
abbrev pub positive : ℕ → Bool
positive x = ltb 0 x && ltb x sign_bit

-- x < 0 for an int64.
abbrev pub negative : ℕ → Bool
negative x = leb sign_bit x

-- x < y for two int64 values: flipping the sign bit turns signed order into order of patterns.
abbrev pub less : ℕ → ℕ → Bool
less x y = ltb ((x + sign_bit) % word_mod) ((y + sign_bit) % word_mod)

-- x++ on an int64.
abbrev pub incr : ℕ → ℕ
incr x = (x + 1) % word_mod
