-- ===== src/Tests/Signatures.antt =====
-- A count of signatures at a concrete input.
use mathlib.Core.List.{Memᴰ}
use cdml.Common.{◌≤◌, true, length, List, [], ◌∷◌, ◌≡◌, ◌↔◌, refl, replicate}
use cdml.Core.Errors.{ok}
use cdml.Core.Types.{PubKey, WitnessSignature}
use cdml.Crypto.Sign.{count_valid_sigs, verify_quorum}
use cdml.Crypto.Sign.Quorum.{Distinct, SignedBy, verify_quorum_iff}
use cdml.Tests.Instances.{primitives}
use cdml.Tests.Accounts.{alice, bob}

abbrev vote : PubKey → WitnessSignature
vote q = record {
  witness_pub_key = q;
  dag_tip_at_sign = replicate 32 6;
  nonce_lock_seen = true;
  sig = replicate 64 3;
}

-- bob signs twice, alice once
abbrev votes : List WitnessSignature
votes = vote bob ∷ vote alice ∷ vote bob ∷ []

verify_quorum_iff_example :
    (keys : List PubKey) × Distinct keys
    × ((q : PubKey) → Memᴰ q keys ↔ SignedBy primitives (replicate 32 7) (alice ∷ bob ∷ []) q votes)
    × (count_valid_sigs primitives votes (replicate 32 7) (alice ∷ bob ∷ []) ≡ length keys)
    × ((verify_quorum primitives votes (replicate 32 7) (alice ∷ bob ∷ []) 3 ≡ ok tt)
        ↔ (3 ≤ length keys))
verify_quorum_iff_example = verify_quorum_iff primitives (replicate 32 7) (alice ∷ bob ∷ []) votes 3

-- of the three signatures two count
counted_votes : count_valid_sigs primitives votes (replicate 32 7) (alice ∷ bob ∷ []) ≡ 2
unfolding count_valid_sigs
counted_votes = refl
