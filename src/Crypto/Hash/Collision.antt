-- ===== src/Crypto/Hash/Collision.antt =====
-- The bytes that are hashed determine the transaction, so that only a collision of BLAKE2b can give
-- two transactions one hash.
use cdml.Common.{
  ℕ, ◌^◌, ◌<◌, Bytes, Bytes-discrete, put_uint64, uint64, uint64-put_uint64, length, copy_into_full,
  append-injective, List, [], ◌∷◌, ◌++◌, ◌≡◌, ◌≢◌, ◌⊎◌, inl, inr, ap, refl, sym, ◌∙◌, arith,
  length-put_uint64,
}
use cdml.Core.Types.{Hash32, Transaction}
use cdml.Crypto.Primitives.{Primitives, PrimitivesLaws}
use cdml.Crypto.Hash.{concat, hash_input, hash_tx}

abbrev pub All32 : List Hash32 → Type 0
All32 [] = Unit {0}
All32 (p ∷ ps) = (length p ≡ 32) × All32 ps

-- a transaction whose arrays and numbers have the sizes of their Go types
pub record IsSized (tx : Transaction) : Type 0 where
  pub sequence_fits : tx.sequence < 2 ^ 64
  pub nonce_fits : tx.nonce < 2 ^ 64
  pub amount_fits : tx.amount < 2 ^ 64
  pub from_size : length tx.from ≡ 32
  pub to_size : length tx.to ≡ 32
  pub parent_sizes : All32 tx.parent_hashes

-- the fields that a sender signs are the same
pub record SameFields (tx other : Transaction) : Type 0 where
  pub sequence : tx.sequence ≡ other.sequence
  pub nonce : tx.nonce ≡ other.nonce
  pub from : tx.from ≡ other.from
  pub to : tx.to ≡ other.to
  pub amount : tx.amount ≡ other.amount
  pub parent_hashes : tx.parent_hashes ≡ other.parent_hashes

abbrev pub input_of : Transaction → Bytes
input_of tx = hash_input tx.sequence tx.nonce tx.from tx.to tx.amount tx.parent_hashes

concat-injective : (ps qs : List Hash32) → All32 ps → All32 qs → concat ps ≡ concat qs → ps ≡ qs
unfolding concat
concat-injective [] [] hp hq e = refl
concat-injective [] ((_ ∷ q) ∷ qs) hp hq e = cc
concat-injective [] ([] ∷ qs) hp hq e = absurd (omega arith)
concat-injective ((_ ∷ p) ∷ ps) [] hp hq e = cc
concat-injective ([] ∷ ps) [] hp hq e = absurd (omega arith)
concat-injective (p ∷ ps) (q ∷ qs) hp hq e =
    let (front, back) = append-injective p q (concat ps) (concat qs) (omega arith) e in
    let rest = concat-injective ps qs hp.1 hq.1 back in cc

-- an encoded number in front, taken off
number_of_append :
    (m n : ℕ) (xs ys : Bytes)
    → m < 2 ^ 64
    → n < 2 ^ 64
    → put_uint64 m ++ xs ≡ put_uint64 n ++ ys
    → (m ≡ n) × (xs ≡ ys)
number_of_append m n xs ys hm hn e =
    let (front, back) =
      append-injective (put_uint64 m) (put_uint64 n) xs ys
        (length-put_uint64 m ∙ sym (length-put_uint64 n)) e in
    (ground (arith, uint64-put_uint64 m hm, uint64-put_uint64 n hn, ap uint64 front), back)

-- The bytes that HashTx hashes determine the sequence, the nonce, both keys, the amount and the
-- parents of a transaction whose arrays and numbers have the sizes of their types.
pub hash_input-SameFields :
    (tx other : Transaction)
    → IsSized tx
    → IsSized other
    → input_of tx ≡ input_of other
    → SameFields tx other
unfolding hash_input
hash_input-SameFields tx other h k e =
    let (seqs, e1) =
      number_of_append tx.sequence other.sequence _ _ h.sequence_fits k.sequence_fits e in
    let (nonces, e2) = number_of_append tx.nonce other.nonce _ _ h.nonce_fits k.nonce_fits e1 in
    let (froms, e3) = append-injective tx.from other.from _ _ (h.from_size ∙ sym k.from_size) e2 in
    let (tos, e4) = append-injective tx.to other.to _ _ (h.to_size ∙ sym k.to_size) e3 in
    let (amounts, e5) =
      number_of_append tx.amount other.amount _ _ h.amount_fits k.amount_fits e4 in
    record {
      sequence = seqs;
      nonce = nonces;
      from = froms;
      to = tos;
      amount = amounts;
      parent_hashes = concat-injective _ _ h.parent_sizes k.parent_sizes e5;
    }

module _ (p : Primitives) where
  -- two different inputs with one digest
  pub record Collision : Type 0 where
    pub left : Bytes
    pub right : Bytes
    pub differ : left ≢ right
    pub collide : p.blake2b_256 left ≡ p.blake2b_256 right

module _ (p : Primitives) (laws : PrimitivesLaws p) where
  -- Two transactions with the same HashTx agree on every field that is hashed, or they exhibit a
  -- collision of BLAKE2b-256 (for transactions of the sizes of their Go types).
  pub hash_tx-binding :
      (tx other : Transaction)
      → IsSized tx
      → IsSized other
      → hash_tx p tx.sequence tx.nonce tx.from tx.to tx.amount tx.parent_hashes
        ≡ hash_tx p other.sequence other.nonce other.from other.to other.amount other.parent_hashes
      → SameFields tx other ⊎ Collision p
  unfolding hash_tx
  hash_tx-binding tx other h k e = elim (Bytes-discrete (input_of tx) (input_of other)) [
    | yes same ↦ inl (hash_input-SameFields tx other h k same)
    | no apart ↦
        let left = p.blake2b_256 (input_of tx) in
        let right = p.blake2b_256 (input_of other) in
        inr (record {
          left = input_of tx;
          right = input_of other;
          differ = apart;
          collide =
              sym (copy_into_full 32 left (laws.length-blake2b_256 (input_of tx)))
              ∙ e
              ∙ copy_into_full 32 right (laws.length-blake2b_256 (input_of other));
        })
  ]
