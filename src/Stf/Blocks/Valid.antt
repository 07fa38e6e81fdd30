-- ===== src/Stf/Blocks/Valid.antt =====
-- The invariant of the states of a chain, kept by `process_attestations` of
-- crates/blockchain/state_transition/src/lib.rs.
use ethlambda.Base.{
  ◌+◌, ◌*◌, ◌≤◌, ◌≡◌, refl, ap, sym, ◌∙◌, false, arith, any, ◌==◌, nat_eq, keys, List, ok, length,
}
use ethlambda.Ssz.{Ssz, SszLaws}
use ethlambda.Types.{
  zero_hash, State, AggregatedAttestation, historical_roots_limit, validator_registry_limit,
}
use ethlambda.Stf.Invariant.{IsConsistent}
use ethlambda.Stf.Attestations.{load_tally, root_slots, process_attestations, sort}
use ethlambda.Stf.Attestations.Justify.{IsSound, Advances}
use ethlambda.Stf.Attestations.Loop.{process_each_ok}
use ethlambda.Stf.Attestations.Rows.{
  load_tally-Rows, load_tally-size, load_tally_absent, sort_absent, length-sort,
}
use ethlambda.Stf.Attestations.Serialize.{serialize_justifications_lem}

module _ (S : Ssz) where
  open S use {iter}

  -- The invariant of the states of a chain.
  pub record IsValid (s : State S) : Type 0 where
    pub consistent : IsConsistent S s
    pub nonzero : any (λ root. root == zero_hash) s.justifications_roots ≡ false
    pub table :
        length (iter s.justifications_validators)
        ≡ length s.justifications_roots * length s.validators
    pub registry : length s.validators ≤ validator_registry_limit

module _ (S : Ssz) (L : SszLaws S) where
  open S use {iter}

  load_tally-IsSound : (s : State S) → IsValid S s → IsSound S (load_tally S s)
  unfolding load_tally
  load_tally-IsSound s v = record {
    consistent = v.consistent;
    rows =
        load_tally-Rows (length s.validators) (iter s.justifications_validators)
          s.justifications_roots v.table;
    nonzero =
        load_tally_absent zero_hash (length s.validators) (iter s.justifications_validators)
          s.justifications_roots v.nonzero;
  }

  loaded_size :
      (s : State S) → length (keys (load_tally S s).justifications) ≤ length s.justifications_roots
  unfolding load_tally
  loaded_size s =
      load_tally-size (length s.validators) (iter s.justifications_validators)
        s.justifications_roots

  state-load_tally : (s : State S) → (load_tally S s).state ≡ s
  unfolding load_tally
  state-load_tally s = refl

  -- Where the table cannot outgrow its limit, attestations are processed without an error or a
  -- panic, and the state stays valid.
  pub process_attestations_ok :
      (s : State S) (attestations : List (AggregatedAttestation S))
      → IsValid S s
      → length s.justifications_roots + length attestations ≤ historical_roots_limit
      → (s' : State S) × (process_attestations S s attestations ≡ ok s')
        × IsValid S s'
        × Advances S s s'
  unfolding process_attestations
  process_attestations_ok s attestations v few =
      let (t, ran, i, a, size) =
        process_each_ok S L (root_slots S s) (load_tally S s) attestations
          (load_tally-IsSound s v) in
      let a : Advances S s t.state = rw (state-load_tally s) at a in
      let registry = rw (sym a.validators) at v.registry in
      let (bits, done, many, _) =
        serialize_justifications_lem S L t i.rows (omega (arith, size, loaded_size s)) registry in
      (
        record (t.state) {
          justifications_roots = sort (keys t.justifications);
          justifications_validators = bits;
        },
        rw (v.nonzero, ran, done),
        record {
          consistent = record {
            history = i.consistent.history;
            window = i.consistent.window;
            finalized_past = i.consistent.finalized_past;
            in_limit = i.consistent.in_limit;
          };
          nonzero = sort_absent zero_hash t.justifications i.nonzero;
          table =
              many
              ∙ ap (λ k. k * length t.state.validators) (sym (length-sort (keys t.justifications)));
          registry = registry;
        },
        record {
          header = a.header;
          history = a.history;
          validators = a.validators;
          at_slot = a.at_slot;
          finalized = a.finalized;
        },
      )
