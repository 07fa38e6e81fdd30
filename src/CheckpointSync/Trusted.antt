-- ===== src/CheckpointSync/Trusted.antt =====
-- The states that pass the checks of a checkpoint sync.
use ethlambda.Base.{
  ℕ, ◌+◌, ◌<◌, ◌≤◌, ◌≡◌, ◌↔◌, refl, true, List, [], ◌∷◌, length, map, arith, ◌==◌, nat_eq, ok,
  Bool-cases, Outcome-cases, nat_beq_iff,
}
use ethlambda.Ssz.{Ssz}
use ethlambda.Types.{Validator, State, Roots}
use ethlambda.CheckpointSync.{
  bytes_beq, check_indices, check_pubkeys, check_registry, check_checkpoints,
  verify_checkpoint_state,
}

bytes_beq_iff : (xs ys : List ℕ) → (bytes_beq xs ys ≡ true) ↔ (xs ≡ ys)
bytes_beq_iff [] [] = ((λ h. refl), (λ h. refl))
bytes_beq_iff [] (y ∷ ys) = ((λ h. absurd cc), (λ h. absurd cc))
bytes_beq_iff (x ∷ xs) [] = ((λ h. absurd cc), (λ h. absurd cc))
bytes_beq_iff (x ∷ xs) (y ∷ ys) = ground (arith, bytes_beq_iff xs ys, nat_beq_iff x y)

-- The indices count up from `position`.
abbrev pub CountsFrom : ℕ → List Validator → Type 0
CountsFrom position [] = Unit
CountsFrom position (v ∷ validators) = (v.index ≡ position) × CountsFrom (position + 1) validators

check_indices_iff :
    (position : ℕ) (validators : List Validator)
    → (check_indices position validators ≡ ok tt) ↔ CountsFrom position validators
unfolding check_indices
check_indices_iff position [] = ((λ h. tt), (λ h. refl))
check_indices_iff position (v ∷ validators) =
    let rest = check_indices_iff (position + 1) validators in
    let here = Bool-cases (v.index == position) in
    ((λ h. ground (arith, here, rest, h)), (λ h. ground (arith, here, rest, h)))

check_pubkeys_iff :
    (i : ℕ) (validators expected : List Validator)
    → length validators ≡ length expected
    → (check_pubkeys i validators expected ≡ ok tt)
      ↔ (map (λ v. v.pubkey) validators ≡ map (λ v. v.pubkey) expected)
unfolding check_pubkeys
check_pubkeys_iff i [] [] same = ((λ h. refl), (λ h. refl))
check_pubkeys_iff i [] (e ∷ expected) same = absurd (omega arith)
check_pubkeys_iff i (v ∷ validators) [] same = absurd (omega arith)
check_pubkeys_iff i (v ∷ validators) (e ∷ expected) same =
    let rest = check_pubkeys_iff (i + 1) validators expected (omega arith) in
    let here = bytes_beq_iff v.pubkey e.pubkey in
    let test = Bool-cases (bytes_beq v.pubkey e.pubkey) in
    ((λ h. ground (arith, here, test, rest, h)), (λ h. ground (arith, here, test, rest, h)))

module _ (S : Ssz) (R : Roots S) where
  -- What a state has that is accepted as a start.
  pub record IsTrusted (state : State S) (genesis_time : ℕ) (expected : List Validator)
      : Type 0 where
    pub late : 0 < state.slot
    pub populated : 0 < length state.validators
    pub same_genesis : state.config.genesis_time ≡ genesis_time
    pub counted : CountsFrom 0 state.validators
    pub same_keys : map (λ v. v.pubkey) state.validators ≡ map (λ v. v.pubkey) expected
    pub finalized_past : state.latest_finalized.slot ≤ state.slot
    pub ordered : state.latest_finalized.slot ≤ state.latest_justified.slot
    pub one_root :
        state.latest_justified.slot ≡ state.latest_finalized.slot
        → state.latest_justified.root ≡ state.latest_finalized.root
    pub header_past : state.latest_block_header.slot ≤ state.slot
    pub header_finalized :
        state.latest_block_header.slot ≡ state.latest_finalized.slot
        → R.header_hash state.latest_block_header ≡ state.latest_finalized.root
    pub header_justified :
        state.latest_block_header.slot ≡ state.latest_justified.slot
        → R.header_hash state.latest_block_header ≡ state.latest_justified.root

  length_of_keys :
      (xs ys : List Validator)
      → map (λ v. v.pubkey) xs ≡ map (λ v. v.pubkey) ys
      → length xs ≡ length ys
  length_of_keys [] [] h = refl
  length_of_keys [] (y ∷ ys) h = absurd cc
  length_of_keys (x ∷ xs) [] h = absurd cc
  length_of_keys (x ∷ xs) (y ∷ ys) h = omega (arith, length_of_keys xs ys cc)

  -- A downloaded state is accepted exactly when it is past slot 0, has the configured genesis time,
  -- validators that are counted from 0 and have the configured public keys in their order, a
  -- finalized checkpoint that is behind neither the state nor, in this order, the justified one, and
  -- a latest header not past the state; and when checkpoints of one slot, or of the header's
  -- slot, have one root.
  pub verify_checkpoint_state_iff :
      (state : State S) (genesis_time : ℕ) (expected : List Validator)
      → (verify_checkpoint_state S R state genesis_time expected ≡ ok tt)
        ↔ IsTrusted state genesis_time expected
  unfolding verify_checkpoint_state check_registry check_checkpoints
  verify_checkpoint_state_iff state genesis_time expected =
      let indices = check_indices_iff 0 state.validators in
      let keys = check_pubkeys_iff 0 state.validators expected in
      let sizes = length_of_keys state.validators expected in
      let ran = Outcome-cases (check_indices 0 state.validators) in
      let matched = Outcome-cases (check_pubkeys 0 state.validators expected) in
      (
        (λ h. record {
          late = ground (arith, ran, matched, h);
          populated = ground (arith, ran, matched, h);
          same_genesis = ground (arith, ran, matched, h);
          counted = indices.0 (ground (arith, ran, matched, h));
          same_keys = (keys (ground (arith, ran, matched, h))).0 (ground (arith, ran, matched, h));
          finalized_past = ground (arith, ran, matched, h);
          ordered = ground (arith, ran, matched, h);
          one_root = λ e. ground (arith, ran, matched, h, e);
          header_past = ground (arith, ran, matched, h);
          header_finalized = λ e. ground (arith, ran, matched, h, e);
          header_justified = λ e. ground (arith, ran, matched, h, e);
        }),
        (λ t.
            let size = sizes t.same_keys in
            let counted = indices.1 t.counted in
            let same = (keys size).1 t.same_keys in
            rw (counted, same)
              (ground (
                arith, size, t.late, t.populated, t.same_genesis, t.finalized_past, t.ordered,
                t.one_root, t.header_past, t.header_finalized, t.header_justified,
              ))),
      )
