-- ===== src/Base/Table.antt =====
-- A table of all values of a byte, or of a smaller bound: a Boolean test that a computation settles.
use mathlib.Core.Path.{◌≡◌}
use mathlib.Core.Bool.{Bool, true, false}
use Prim.Native.Nat.{ℕ, zero, suc, ◌<◌}
use native.Mathlib.Omega.{arith}
use v6space.Base.Tests.{if◌then◌else◌, ==_iff}

-- Whether every entry with an index under `size` passes.
unfoldable pub table_holds : ℕ → (ℕ → Bool) → Bool
table_holds zero entry = true
table_holds (suc size) entry = if entry size then table_holds size entry else false

-- An entry of a table that holds.
pub table_entry :
    (size : ℕ) (entry : ℕ → Bool) (i : ℕ)
    → table_holds size entry ≡ true
    → i < size
    → entry i ≡ true
unfolding table_holds
table_entry zero entry i h inside = absurd (omega arith)
table_entry (suc size) entry i h inside = ground (arith, table_entry size entry i, ==_iff i size)
