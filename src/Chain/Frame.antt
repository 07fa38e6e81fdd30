-- ===== src/Chain/Frame.antt =====
-- Two stores of crates/storage/src/store.rs with the same chain.
use ethlambda.Base.{◌≡◌, refl, ◌∙◌}
use ethlambda.Ssz.{Ssz}
use ethlambda.Storage.Store.{Store}

module _ (S : Ssz) where
  -- The second store has the blocks, the index, the states, the checkpoints and the configuration
  -- of the first.
  abbrev pub SameChain : Store S → Store S → Type 0
  SameChain a b =
      (b.tables.block_headers ≡ a.tables.block_headers)
      × (b.tables.block_bodies ≡ a.tables.block_bodies)
      × (b.tables.block_signatures ≡ a.tables.block_signatures)
      × (b.tables.states ≡ a.tables.states)
      × (b.tables.live_chain ≡ a.tables.live_chain)
      × (b.metadata.latest_justified ≡ a.metadata.latest_justified)
      × (b.metadata.latest_finalized ≡ a.metadata.latest_finalized)
      × (b.metadata.config ≡ a.metadata.config)

  pub SameChain-refl : (a : Store S) → SameChain a a
  SameChain-refl a = (refl, refl, refl, refl, refl, refl, refl, refl)

  pub SameChain-trans : (a b c : Store S) → SameChain a b → SameChain b c → SameChain a c
  SameChain-trans a b c h k =
      (k.0 ∙ h.0, k.1 ∙ h.1, k.2 ∙ h.2, k.3 ∙ h.3, k.4 ∙ h.4, k.5 ∙ h.5, k.6 ∙ h.6, k.7 ∙ h.7)
