-- ===== src/Stf/JustifiedSlots/Shift.antt =====
-- `shift_window` drops the bits of the slots that finalization has passed, and no other.
use ethlambda.Base.{
  ℕ, zero, suc, ◌+◌, ◌-◌, ◌≤◌, ◌<◌, ◌≡◌, refl, ap, sym, ◌∙◌, true, false, Option, none, some,
  length, get_elem?, set, replicate, drop, arith, ltb, if◌then◌else◌, unwrap_or, ok, expect, inl,
  inr, ◌>>=◌, Bool-cases, ◌==◌, nat_eq, get_elem?-set_self, get_elem?-set_ne, length-set,
  get_elem?-eq-none, length-drop, get_elem?-drop, length-replicate, ext_get_elem?,
  get_elem?-replicate, get_elem?-eq-some, lt→ltb, Bool, [], List,
}
use ethlambda.Ssz.{Ssz, SszLaws}
use ethlambda.Ssz.Laws.{put_ok, with_capacity_ok}
use ethlambda.Types.{historical_roots_limit}
use ethlambda.Stf.JustifiedSlots.{is_slot_justified, shift_bits, shift_window}
use ethlambda.Stf.JustifiedSlots.Laws.{is_slot_justified_lem}

module _ (S : Ssz) (L : SszLaws S) where
  open S use {BitList, iter, len, put}

  -- The new bits below `i` are those of the old list from `delta`; the others are unset.
  pub record Copied (delta i n : ℕ) (slots new_bits : BitList) : Type 0 where
    pub size : length (iter new_bits) ≡ n
    pub done : (j : ℕ) → j < i → get_elem? (iter new_bits) j ≡ get_elem? (iter slots) (delta + j)
    pub rest : (j : ℕ) → i ≤ j → j < n → get_elem? (iter new_bits) j ≡ some false

  copy_set :
      (delta i n : ℕ) (slots b b' : BitList)
      → i < n
      → Copied delta i n slots b
      → get_elem? (iter slots) (delta + i) ≡ some true
      → iter b' ≡ set (iter b) i true
      → Copied delta (i + 1) n slots b'
  copy_set delta i n slots b b' below c bit e = record {
    size = ap length e ∙ length-set (iter b) i true ∙ c.size;
    done = λ j h. elim (Bool-cases (j == i)) [
      | inl same ↦
          let q : j ≡ i = ground arith in
          ap (get_elem? (iter b')) q
          ∙ ap (λ l. get_elem? l i) e
          ∙ get_elem?-set_self (iter b) i true (omega (arith, c.size))
          ∙ sym bit
          ∙ ap (λ k. get_elem? (iter slots) (delta + k)) (sym q)
      | inr other ↦
          ap (λ l. get_elem? l j) e
          ∙ get_elem?-set_ne (iter b) i j true (ground arith)
          ∙ c.done j (ground arith)
    ];
    rest = λ j h k.
        ap (λ l. get_elem? l j) e
        ∙ get_elem?-set_ne (iter b) i j true (omega arith)
        ∙ c.rest j (omega arith) k;
  }

  copy_skip :
      (delta i n : ℕ) (slots b : BitList)
      → i < n
      → Copied delta i n slots b
      → get_elem? (iter slots) (delta + i) ≡ some false
      → Copied delta (i + 1) n slots b
  copy_skip delta i n slots b below c bit = record {
    size = c.size;
    done = λ j h. elim (Bool-cases (j == i)) [
      | inl same ↦
          let q : j ≡ i = ground arith in
          c.rest j (omega arith) (omega arith)
          ∙ sym bit
          ∙ ap (λ k. get_elem? (iter slots) (delta + k)) (sym q)
      | inr other ↦ c.done j (ground arith)
    ];
    rest = λ j h k. c.rest j (omega arith) k;
  }

  shift_bits_lem {ℓ} :
      {E : Type ℓ} (rounds i n delta : ℕ) (slots b : BitList)
      → i + rounds ≡ n
      → length (iter slots) ≡ delta + n
      → Copied delta i n slots b
      → (b' : BitList) × (shift_bits S {E = E} rounds i delta slots b ≡ ok b')
        × Copied delta n n slots b'
  unfolding shift_bits
  shift_bits_lem zero i n delta slots b e f c = let q : i ≡ n = omega arith in (b, refl, rw q at c)
  shift_bits_lem {E} (suc rounds) i n delta slots b e f c =
      let (v, found) = get_elem?-eq-some (iter slots) (delta + i) (omega arith) in
      let q : i + delta ≡ delta + i = omega arith in
      let bit = L.get-iter slots (i + delta) ∙ ap (get_elem? (iter slots)) q ∙ found in
      let next =
        λ (o : Option BitList). expect {E = E} o >>= shift_bits S rounds (i + 1) delta slots in
      let test = λ (o : Option Bool). next (if unwrap_or o false then put b i true else some b) in
      elim (Bool-cases v) [
        | inl one ↦
            let (b₁, done, bits) = put_ok S L b i true (omega (arith, c.size)) in
            let c₁ = copy_set delta i n slots b b₁ (omega arith) c (found ∙ ap some one) bits in
            let (b', ran, r) =
              shift_bits_lem {E = E} rounds (i + 1) n delta slots b₁ (omega arith) f c₁ in
            (b', ap test (bit ∙ ap some one) ∙ ap next done ∙ ran, r)
        | inr none_ ↦
            let c₁ = copy_skip delta i n slots b (omega arith) c (found ∙ ap some none_) in
            let (b', ran, r) =
              shift_bits_lem {E = E} rounds (i + 1) n delta slots b (omega arith) f c₁ in
            (b', ap test (bit ∙ ap some none_) ∙ ran, r)
      ]

  Copied-start :
      (delta n : ℕ) (slots b : BitList) → iter b ≡ replicate n false → Copied delta 0 n slots b
  Copied-start delta n slots b e = record {
    size = ap length e ∙ length-replicate n false;
    done = λ j h. elim h [ ];
    rest = λ j h k.
        ap (λ l. get_elem? l j) e
        ∙ (get_elem?-replicate n j false ∙ ap (λ t. if t then some false else none) (lt→ltb j n k));
  }

  Copied-end :
      (delta n : ℕ) (slots b : BitList)
      → length (iter slots) ≡ delta + n
      → Copied delta n n slots b
      → iter b ≡ drop delta (iter slots)
  Copied-end delta n slots b f c = ext_get_elem? (iter b) (drop delta (iter slots)) λ j.
      elim (Bool-cases (ltb j n)) [
        | inl within ↦ c.done j (ground arith) ∙ sym (get_elem?-drop delta j (iter slots))
        | inr out ↦
            get_elem?-eq-none (iter b) j (ground (arith, c.size))
            ∙ sym (
                get_elem?-eq-none (drop delta (iter slots)) j
                  (ground (arith, length-drop delta (iter slots))))
      ]

  drop_all : (n : ℕ) (xs : List Bool) → length xs ≤ n → drop n xs ≡ []
  drop_all n xs h =
      ext_get_elem? (drop n xs) []
        λ j. get_elem?-eq-none (drop n xs) j (omega (arith, length-drop n xs))

  shift_loop {ℓ} :
      {E : Type ℓ} (b : BitList) (delta : ℕ)
      → 0 < delta
      → delta < length (iter b)
      → shift_window S {E = E} b delta ≡ (
          expect (S.with_capacity historical_roots_limit (length (iter b) - delta))
          >>= shift_bits S (length (iter b) - delta) 0 delta b)
  unfolding shift_window
  shift_loop b delta h k = ground (arith, L.len-iter b)

  shift_empty {ℓ} :
      {E : Type ℓ} (b : BitList) (delta : ℕ)
      → 0 < delta
      → length (iter b) ≤ delta
      → shift_window S {E = E} b delta ≡ expect (S.with_capacity historical_roots_limit 0)
  unfolding shift_window
  shift_empty b delta h k = ground (arith, L.len-iter b)

  -- Below the limit the window shifts without a panic: what is left are the bits from `delta` on.
  pub iter-shift_window {ℓ} :
      {E : Type ℓ} (b : BitList) (delta : ℕ)
      → length (iter b) ≤ historical_roots_limit
      → (b' : BitList) × (shift_window S {E = E} b delta ≡ ok b') × (iter b' ≡ drop delta (iter b))
  unfolding shift_window
  iter-shift_window b zero h = (b, refl, refl)
  iter-shift_window {E} b (suc d) h = elim (Bool-cases (ltb (suc d) (length (iter b)))) [
    | inl some_left ↦
        let n = length (iter b) - suc d in
        let f : length (iter b) ≡ suc d + n = ground arith in
        let (z, found, bits) = with_capacity_ok S L historical_roots_limit n (omega arith) in
        let (b', ran, c) =
          shift_bits_lem {E = E} n 0 n (suc d) b z (omega arith) f
            (Copied-start (suc d) n b z bits) in
        (
          b',
          shift_loop b (suc d) (omega arith) (ground arith)
              ∙ ap (λ o. expect o >>= shift_bits S n 0 (suc d) b) found
              ∙ ran,
          Copied-end (suc d) n b b' f c,
        )
    | inr none_left ↦
        let (z, found, bits) = with_capacity_ok S L historical_roots_limit 0 (omega arith) in
        (
          z,
          shift_empty b (suc d) (omega arith) (ground arith) ∙ ap expect found,
          bits ∙ sym (drop_all (suc d) (iter b) (ground arith)),
        )
  ]

  -- When finalization moves from `f` to `g`, shifting by the difference leaves every slot after
  -- `g` as justified as it was, does not panic, and drops as many bits.
  pub shift_window_lem {ℓ} :
      {E : Type ℓ} (b : BitList) (f g : ℕ)
      → f ≤ g
      → length (iter b) ≤ historical_roots_limit
      → (b' : BitList) × (shift_window S {E = E} b (g - f) ≡ ok b')
        × (length (iter b') ≡ length (iter b) - (g - f))
        × ((u : ℕ) → g < u → is_slot_justified S b' g u ≡ is_slot_justified S b f u)
  shift_window_lem b f g le h =
      let (b', ran, bits) = iter-shift_window b (g - f) h in
      (
        b',
        ran,
        ap length bits ∙ length-drop (g - f) (iter b),
        λ u lt.
            let at_ : g - f + (u - g - 1) ≡ u - f - 1 = omega arith in
            let same : get_elem? (iter b') (u - g - 1) ≡ get_elem? (iter b) (u - f - 1) =
              ap (λ l. get_elem? l (u - g - 1)) bits
              ∙ get_elem?-drop (g - f) (u - g - 1) (iter b)
              ∙ ap (get_elem? (iter b)) at_ in
            ground (arith, is_slot_justified_lem S L b' g u, is_slot_justified_lem S L b f u, same),
      )
