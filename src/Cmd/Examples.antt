-- ===== src/Cmd/Examples.antt =====
-- Tests of the key search.
use v6space.Base.{ℕ, List, replicate}

abbrev high : List ℕ
high = replicate 32 9

abbrev low : List ℕ
low = replicate 32 4
