-- ===== src/Promotion/Depth.antt =====
-- The recursion of `promote_types_arithmetic` into options and dimensions ends.
use libdynd.Common.{ℕ, ◌+◌, ◌<◌, ◌≡◌, Option}
use libdynd.Promotion.{NdtType, depth}

-- Two functions that agree on all pairs of types of less depth together.
abbrev AgreeBelow :
    ℕ → (NdtType → NdtType → Option NdtType) → (NdtType → NdtType → Option NdtType) → Type 0
AgreeBelow n f g = (t u : NdtType) → depth t + depth u < n → f t u ≡ g t u
