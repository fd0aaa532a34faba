-- ===== src/Recovery/Lost.antt =====
-- The sets and block groups after addFailedESets of Recovery/Failed.antt.
use eset_store.Base.{ℕ, ◌≡◌, ◌⊎◌, List, [], ◌∷◌}
use eset_store.Placement.ESet.{ESets}
use eset_store.Placement.Manager.{BlockGroupMapping}
use eset_store.Recovery.Failed.{FailedESets}
use eset_store.Recovery.Marked.{InChain}

-- The block group at `p` is in the chain of one of these sets; `ids` are the `esetId`s of the sets.
abbrev pub InChains : (ℕ → List BlockGroupMapping) → (ℕ → ℕ) → List FailedESets → ℕ → Type 0
InChains chains ids [] p = ⊥
InChains chains ids (f ∷ fs) p = InChain p (chains (ids f.eset_idx)) ⊎ InChains chains ids fs p

abbrev HasIds : (ℕ → ESets) → (ℕ → ℕ) → Type 0
HasIds esets ids = (i : ℕ) → (esets i).eset_id ≡ ids i
