-- ===== src/Common/Listeners.antt =====
-- A `Set` of listeners, in the order in which they were added.
use Prim.Native.Nat.{ℕ}
use mathlib.Core.Bool.{not}
use mathlib.Core.List.{List, [], ◌∷◌, ◌++◌}
use reth_monmouth.Common.Tests.{if◌then◌else◌, ◌==◌}
use reth_monmouth.Common.Lists.{any, filter}

-- `listeners.add(i)`: a listener that is there keeps its place.
abbrev pub with_listener : ℕ → List ℕ → List ℕ
with_listener i is = if any (λ j. i == j) is then is else is ++ i ∷ []

-- `listeners.delete(i)`
abbrev pub without_listener : ℕ → List ℕ → List ℕ
without_listener i is = filter (λ j. not (i == j)) is
