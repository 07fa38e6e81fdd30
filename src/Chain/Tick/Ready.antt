-- ===== src/Chain/Tick/Ready.antt =====
-- The stores on which a tick runs to its end.
use ethlambda.Base.{
  ℕ, ◌&&◌, ◌≤◌, ◌≡◌, refl, ap, sym, ◌∙◌, some, [], ◌∷◌, length, nat_eq, ◌==◌, lookup, inl, inr,
  Bool-cases,
}
use ethlambda.Ssz.{Ssz}
use ethlambda.Types.{H256, Checkpoint, validator_registry_limit, State}
use ethlambda.ForkChoice.{Blocks, Weights}
use ethlambda.ForkChoice.Children.{In, IsUnique, Heads, stop, down, children_of, takes_part}
use ethlambda.Storage.Store.{
  Store, get_state, get_live_chain, set_safe_target, promote_new_aggregated_payloads, head_state,
}
use ethlambda.Chain.Frame.{SameChain, SameChain-refl}
use ethlambda.Chain.Head.{update_safe_target, accept_new_attestations}
use ethlambda.Chain.Head.SafeTarget.{IsReady, update_safe_target_lem, update_head_lem}

In-children_of :
    (weights : Weights) (min_score : ℕ) (blocks : Blocks) (head child : H256)
    → In child (children_of weights min_score blocks head)
    → (v : ℕ × H256) × In (child, v) blocks
unfolding children_of
In-children_of weights min_score [] head child h = absurd h
In-children_of weights min_score ((root, (slot, parent)) ∷ blocks) head child h =
    let rest = In-children_of weights min_score blocks head child in
    elim (Bool-cases (takes_part weights min_score root parent && parent == head)) [
      | inl taken ↦ elim (rw (taken, children_of) at h) [
        | inl here ↦ ((slot, parent), inl (ap (λ r. (r, (slot, parent))) here))
        | inr there ↦ let (v, member) = rest there in (v, inr member)
      ]
      | inr left_out ↦ let (v, member) = rest (rw (left_out, children_of) at h) in (v, inr member)
    ]

Heads-known :
    (weights : Weights) (min_score : ℕ) (blocks : Blocks) (start head : H256)
    → IsUnique blocks
    → Heads weights min_score blocks start head
    → (v : ℕ × H256) × (lookup start blocks ≡ some v)
    → (v : ℕ × H256) × (lookup head blocks ≡ some v)
Heads-known weights min_score blocks start _ unique (stop _ none_below) known = known
Heads-known weights min_score blocks start head unique (down child best more) known =
    let (v, member) = In-children_of weights min_score blocks start child best.member in
    Heads-known weights min_score blocks child head unique more (v, unique.at child v member)

module _ (S : Ssz) where
  abbrev pub HasState : Store S → H256 → Type 0
  HasState store root =
      (state : State S) × (get_state S store root ≡ some state)
      × (length state.validators ≤ validator_registry_limit)

  -- The index is a forest with the justified block, the fuel is enough, and the head and every block
  -- of the index have their state.
  pub record CanTick (fuel : ℕ) (store : Store S) : Type 0 where
    pub ready : IsReady S fuel store
    pub states :
        (root : H256) (v : ℕ × H256)
        → lookup root (get_live_chain S store) ≡ some v
        → HasState store root
    pub head : HasState store store.metadata.head

  same_live : (a b : Store S) → SameChain S a b → get_live_chain S b ≡ get_live_chain S a
  unfolding get_live_chain
  same_live a b h = rw (h.4) refl

  HasState-same :
      (a b : Store S) (root : H256) → SameChain S a b → HasState a root → HasState b root
  unfolding get_state
  HasState-same a b root h (state, found, limit) = (state, ap (lookup root) h.3 ∙ found, limit)

  pub CanTick-same :
      (fuel : ℕ) (a b : Store S)
      → SameChain S a b
      → HasState a b.metadata.head
      → CanTick fuel a
      → CanTick fuel b
  CanTick-same fuel a b h at_head c =
      let live = same_live a b h in
      record {
        ready = record {
          forest = rw live c.ready.forest;
          below = rw live c.ready.below;
          unique = rw live c.ready.unique;
          slot = c.ready.slot;
          parent = c.ready.parent;
          nonzero = λ e. c.ready.nonzero (ap (λ (x : Checkpoint). x.root) (sym h.5) ∙ e);
          known = cc (h.5, live, c.ready.known);
        };
        states = λ root v found. HasState-same a b root h (c.states root v (rw (sym live) found));
        head = HasState-same a b b.metadata.head h at_head;
      }

  pub accept_new_attestations_ok :
      (fuel : ℕ) (store : Store S)
      → CanTick fuel store
      → (store' : Store S) × (accept_new_attestations S fuel store ≡ some store')
        × SameChain S store store'
        × (store'.metadata.time ≡ store.metadata.time)
        × CanTick fuel store'
  unfolding accept_new_attestations promote_new_aggregated_payloads
  accept_new_attestations_ok fuel store c =
      let promoted = promote_new_aggregated_payloads S store in
      let here = CanTick-same fuel store promoted (SameChain-refl S store) c.head c in
      let (head, w, ran, _, path) = update_head_lem S fuel promoted here.ready in
      let known =
        Heads-known w 0 (get_live_chain S promoted) promoted.metadata.latest_justified.root head
          here.ready.unique path ((here.ready.slot, here.ready.parent), here.ready.known) in
      let moved : Store S = record promoted {
        metadata = record (promoted.metadata) { head = head };
      } in
      let at_head = here.states head known.0 known.1 in
      (
        moved,
        ran,
        SameChain-refl S store,
        refl,
        CanTick-same fuel promoted moved (SameChain-refl S store) at_head here,
      )

  pub update_safe_target_ok :
      (fuel : ℕ) (store : Store S)
      → CanTick fuel store
      → (store' : Store S) × (update_safe_target S fuel store ≡ some store')
        × SameChain S store store'
        × (store'.metadata.time ≡ store.metadata.time)
        × CanTick fuel store'
  unfolding set_safe_target head_state
  update_safe_target_ok fuel store c =
      let (state, found, _) = c.head in
      let (target, w, ran, _, _, _, _) = update_safe_target_lem S fuel store state c.ready found in
      let moved = set_safe_target S store target in
      (
        moved,
        ran,
        SameChain-refl S store,
        refl,
        CanTick-same fuel store moved (SameChain-refl S store) c.head c,
      )
