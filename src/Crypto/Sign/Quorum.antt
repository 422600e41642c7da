-- ===== src/Crypto/Sign/Quorum.antt =====
-- The quorum counts distinct registered witnesses, each once, by valid signatures only.
use mathlib.Core.List.{Memᴰ}
use mathlib.Core.List.Memᴰ
use mathlib.Core.Logic.{⊎_elim}
use cdml.Common.{
  ℕ, ◌+◌, ◌≤◌, true, false, Bytes-discrete, contains, contains_iff, Memᴰ-cons, length, List, [],
  ◌∷◌, ◌≡◌, ◌↔◌, ◌⊎◌, inl, inr, refl, sym, arith, Bool-cases,
}
use cdml.Core.Errors.{ok}
use cdml.Core.Types.{PubKey, Hash32, WitnessSignature}
use cdml.Crypto.Primitives.{Primitives}
use cdml.Crypto.Sign.{counts, count_loop, count_valid_sigs, verify_quorum, verify_witness_sig}

-- no key twice
abbrev pub Distinct : List PubKey → Type 0
Distinct [] = Unit {0}
Distinct (x ∷ xs) = (¬ Memᴰ x xs) × Distinct xs

module _ (p : Primitives) (tx_hash : Hash32) (valid_set : List PubKey) where
  -- a signature of a registered witness, which saw the nonce lock, over this transaction
  pub record Qualifies (ws : WitnessSignature) : Type 0 where
    pub registered : Memᴰ ws.witness_pub_key valid_set
    pub saw_lock : ws.nonce_lock_seen ≡ true
    pub verified : verify_witness_sig p ws tx_hash ≡ ok tt

  -- one of the signatures is a qualified one by this key
  abbrev pub SignedBy : PubKey → List WitnessSignature → Type 0
  SignedBy q [] = ⊥
  SignedBy q (ws ∷ sigs) = ((ws.witness_pub_key ≡ q) × Qualifies ws) ⊎ SignedBy q sigs

  counts_iff :
      (ws : WitnessSignature) (counted : List PubKey)
      → (counts p ws tx_hash valid_set counted ≡ true)
        ↔ ((¬ Memᴰ ws.witness_pub_key counted) × Qualifies ws)
  unfolding Bytes-discrete
  counts_iff ws counted = ground (
    arith,
    contains_iff Bytes-discrete ws.witness_pub_key counted,
    contains_iff Bytes-discrete ws.witness_pub_key valid_set,
  )

  -- a qualified signature that the loop skips has a key that is counted already
  skipped_counted :
      (ws : WitnessSignature) (counted : List PubKey)
      → counts p ws tx_hash valid_set counted ≡ false
      → Qualifies ws
      → Memᴰ ws.witness_pub_key counted
  skipped_counted ws counted skipped good =
      elim (Bool-cases (contains Bytes-discrete ws.witness_pub_key counted)) [
        | inl old ↦ (contains_iff Bytes-discrete ws.witness_pub_key counted).0 old
        | inr new ↦
            let unseen : ¬ Memᴰ ws.witness_pub_key counted =
              λ m. cc ((contains_iff Bytes-discrete ws.witness_pub_key counted).1 m) in
            cc ((counts_iff ws counted).1 (unseen, good))
      ]

  -- the keys that the loop adds to those already counted
  record Added (sigs : List WitnessSignature) (counted new : List PubKey) : Type 0 where
    distinct : Distinct new
    fresh : (q : PubKey) → Memᴰ q new → ¬ Memᴰ q counted
    sound : (q : PubKey) → Memᴰ q new → SignedBy q sigs
    full : (q : PubKey) → SignedBy q sigs → Memᴰ q counted ⊎ Memᴰ q new

  Added-counted :
      (ws : WitnessSignature) (sigs : List WitnessSignature) (counted new : List PubKey)
      → ¬ Memᴰ ws.witness_pub_key counted
      → Qualifies ws
      → Added sigs (ws.witness_pub_key ∷ counted) new
      → Added (ws ∷ sigs) counted (ws.witness_pub_key ∷ new)
  Added-counted ws sigs counted new unseen good h =
      let key = ws.witness_pub_key in
      record {
        distinct = (λ m. h.fresh key m (Memᴰ.head refl), h.distinct);
        fresh = λ q m old.
            ⊎_elim (λ e. unseen (Memᴰ.cast (sym e) old)) (λ n. h.fresh q n (Memᴰ.tail old))
              (Memᴰ.cases_cons m);
        sound = λ q m. ground (arith, Memᴰ-cons q key new, h.sound q);
        full = λ q s. ground (arith, Memᴰ-cons q key new, Memᴰ-cons q key counted, h.full q);
      }

  Added-skipped :
      (ws : WitnessSignature) (sigs : List WitnessSignature) (counted new : List PubKey)
      → counts p ws tx_hash valid_set counted ≡ false
      → Added sigs counted new
      → Added (ws ∷ sigs) counted new
  Added-skipped ws sigs counted new skipped h = record {
    distinct = h.distinct;
    fresh = h.fresh;
    sound = λ q m. inr (h.sound q m);
    full = λ q s.
        ⊎_elim (λ (e, good). inl (Memᴰ.cast (sym e) (skipped_counted ws counted skipped good)))
          (h.full q) s;
  }

  count_loop-Added :
      (sigs : List WitnessSignature) (counted : List PubKey) (valid : ℕ)
      → (new : List PubKey) × Added sigs counted new
        × (count_loop p sigs tx_hash valid_set counted valid ≡ valid + length new)
  unfolding count_loop
  count_loop-Added [] counted valid = (
    [],
    record {
      distinct = tt;
      fresh = λ q m. absurd (Memᴰ.not-nil m);
      sound = λ q m. absurd (Memᴰ.not-nil m);
      full = λ q s. absurd s;
    },
    omega arith,
  )
  count_loop-Added (ws ∷ sigs) counted valid =
      let key = ws.witness_pub_key in
      elim (Bool-cases (counts p ws tx_hash valid_set counted)) [
        | inl counting ↦
            let (new, h, e) = count_loop-Added sigs (key ∷ counted) (valid + 1) in
            let (unseen, good) = (counts_iff ws counted).0 counting in
            (
              key ∷ new,
              Added-counted ws sigs counted new unseen good h,
              rw (counting, count_loop) (omega (arith, e)),
            )
        | inr skipped ↦
            let (new, h, e) = count_loop-Added sigs counted valid in
            (new, Added-skipped ws sigs counted new skipped h, rw (skipped, count_loop) e)
      ]

  -- VerifyQuorum succeeds exactly when at least k different registered witnesses have signed: there
  -- is a list without repetition of exactly the keys that have a qualified signature among the given
  -- ones, countValidSigs returns its length, and the result is a success exactly if k is at most
  -- that length. Further signatures by a counted witness, by others, without the lock flag or with
  -- an invalid signature make no difference.
  pub verify_quorum_iff :
      (sigs : List WitnessSignature) (k : ℕ)
      → (keys : List PubKey) × Distinct keys
        × ((q : PubKey) → Memᴰ q keys ↔ SignedBy q sigs)
        × (count_valid_sigs p sigs tx_hash valid_set ≡ length keys)
        × ((verify_quorum p sigs tx_hash valid_set k ≡ ok tt) ↔ (k ≤ length keys))
  unfolding count_valid_sigs verify_quorum
  verify_quorum_iff sigs k =
      let (keys, h, e) = count_loop-Added sigs [] 0 in
      (
        keys,
        h.distinct,
        λ q. (h.sound q, λ s. ⊎_elim (λ m. absurd (Memᴰ.not-nil m)) (λ m. m) (h.full q s)),
        omega (arith, e),
        ground (arith, e),
      )
