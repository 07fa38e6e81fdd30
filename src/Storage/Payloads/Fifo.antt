-- ===== src/Storage/Payloads/Fifo.antt =====
-- The buffer is a bounded queue: it holds the newest entries, in order, and never more than fit.
use ethlambda.Base.{
  ℕ, zero, suc, ◌+◌, ◌-◌, ◌<◌, ◌≤◌, ◌≡◌, refl, ap, sym, ◌∙◌, List, [], ◌∷◌, ◌++◌, length, drop, leb,
  arith, length-append, length-drop, Bool-cases, inl, inr,
}
use mathlib.Core.List.{append_assoc, append-nil}
use ethlambda.Storage.Payloads.{SignatureKey, PayloadBuffer, push, push_batch}

-- The last `n` elements.
abbrev pub newest {ℓ} : {A : Type ℓ} → ℕ → List A → List A
newest n l = drop (length l - n) l

drop_cong {ℓ} : {A : Type ℓ} (m n : ℕ) (l : List A) → m ≡ n → drop m l ≡ drop n l
drop_cong m n l h = ap (λ k. drop k l) h

drop-nil {ℓ} : {A : Type ℓ} (n : ℕ) (l : List A) → length l ≡ 0 → drop n l ≡ l
drop-nil zero l h = refl
drop-nil (suc n) [] h = refl
drop-nil (suc n) (x ∷ l) h = absurd (omega arith)

drop-drop {ℓ} : {A : Type ℓ} (m n : ℕ) (l : List A) → drop m (drop n l) ≡ drop (n + m) l
drop-drop m zero l = drop_cong m (0 + m) l (omega arith)
drop-drop m (suc n) [] = drop-nil m [] refl ∙ sym (drop-nil (suc n + m) [] refl)
drop-drop m (suc n) (x ∷ l) =
    drop-drop m n l ∙ drop_cong (suc (n + m)) (suc n + m) (x ∷ l) (omega arith)

drop-append_left {ℓ} :
    {A : Type ℓ} (n : ℕ) (xs ys : List A) → n ≤ length xs → drop n xs ++ ys ≡ drop n (xs ++ ys)
drop-append_left zero xs ys h = refl
drop-append_left (suc n) [] ys h = absurd (omega arith)
drop-append_left (suc n) (x ∷ xs) ys h = drop-append_left n xs ys (omega arith)

-- What is older than the newest entries does not matter for the newest after more arrive.
newest-newest {ℓ} :
    {A : Type ℓ} (n : ℕ) (xs ys : List A) → newest n (newest n xs ++ ys) ≡ newest n (xs ++ ys)
newest-newest n xs ys =
    let k = length xs - n in
    let split = drop-append_left k xs ys (omega arith) in
    let sizes = length-append xs ys in
    let rest = length-drop k (xs ++ ys) in
    rw split (
      drop-drop (length (drop k (xs ++ ys)) - n) k (xs ++ ys)
      ∙ drop_cong (k + (length (drop k (xs ++ ys)) - n)) (length (xs ++ ys) - n) (xs ++ ys)
          (ground (arith, sizes, rest)))

length-newest {ℓ} : {A : Type ℓ} (n : ℕ) (l : List A) → length (newest n l) ≤ n
length-newest n l = ground (arith, length-drop (length l - n) l)

module _ {A : Type 0} where
  push_lem :
      (b : PayloadBuffer A) (key : SignatureKey) (payload : A)
      → 0 < b.capacity
      → length b.entries ≤ b.capacity
      → (push b key payload).entries ≡ newest b.capacity (b.entries ++ ((key, payload) ∷ []))
  unfolding push
  push_lem b key payload pos fits =
      let added : List (SignatureKey × A) = (key, payload) ∷ [] in
      let size = length-append b.entries added in
      elim (Bool-cases (leb b.capacity (length b.entries))) [
        | inl full ↦ rw full (
            drop-append_left 1 b.entries added (ground arith)
            ∙ drop_cong 1 (length (b.entries ++ added) - b.capacity) (b.entries ++ added)
                (ground (arith, size)))
        | inr room ↦ rw room (
            drop_cong 0 (length (b.entries ++ added) - b.capacity) (b.entries ++ added)
              (ground (arith, size)))
      ]

  -- From within its capacity, a buffer that takes a batch of entries holds exactly the newest
  -- entries of what it held followed by the batch, as many as its capacity, in the order in which
  -- they came; it keeps its capacity and stays within it.
  pub push_batch_lem :
      (b : PayloadBuffer A) (batch : List (SignatureKey × A))
      → 0 < b.capacity
      → length b.entries ≤ b.capacity
      → ((push_batch b batch).entries ≡ newest b.capacity (b.entries ++ batch))
        × ((push_batch b batch).capacity ≡ b.capacity)
        × (length (push_batch b batch).entries ≤ b.capacity)
  unfolding push push_batch
  push_batch_lem b [] pos fits = (
    sym (rw append-nil (drop_cong (length b.entries - b.capacity) 0 b.entries (omega arith))),
    refl,
    fits,
  )
  push_batch_lem b ((key, payload) ∷ batch) pos fits =
      let added : List (SignatureKey × A) = (key, payload) ∷ [] in
      let pushed = push_lem b key payload pos fits in
      let cap = b.capacity in
      let within : length (push b key payload).entries ≤ cap =
        rw pushed (length-newest cap (b.entries ++ added)) in
      let (entries, capacity, bound) = push_batch_lem (push b key payload) batch pos within in
      (
        entries
            ∙ ap (λ l. newest cap (l ++ batch)) pushed
            ∙ newest-newest cap (b.entries ++ added) batch
            ∙ ap (newest cap) (append_assoc b.entries added batch),
        capacity,
        bound,
      )
