-- ===== src/Api/Witnesses.antt =====
-- The registration of witnesses.
use mathlib.Core.List.{Memᴰ}
use cdml.Common.{ℕ, List, map, length, ◌≡◌, ◌↔◌, inl, inr, arith}
use cdml.Core.Errors.{Error, ok, err, Res-cases}
use cdml.Core.Types.{PubKey, Witness}
use cdml.Crypto.KeyPair.{KeyPair}
use cdml.Protocol.Processor.World.{LibraryLaws}
use cdml.Storage.Snapshots.{save_active_witnesses, get_active_set}
use cdml.Storage.Snapshots.Stored.{get_active_witnesses-save, get_active_set-save}
use cdml.Node.State.{Node, NodeLibraries}
use cdml.Api.{
  failed, registered, active, bad_request, invalid_pubkey, WitnessRequest, read_witnesses,
  handle_register_witnesses, handle_active_witnesses,
}

module _ (lib : NodeLibraries) (kp : KeyPair) where
  open lib use {libs}
  open libs use {badger, witness_json}

  -- Where any of the keys is not valid, the registration is refused as a whole: nothing changes.
  pub register_invalid :
      (raw : List WitnessRequest) (now : ℕ) (s : Node lib) (e : Error)
      → read_witnesses now raw ≡ err e
      → handle_register_witnesses lib kp (ok raw) now s
        ≡ (ok (failed bad_request invalid_pubkey), s)
  unfolding handle_register_witnesses
  register_invalid raw now s e h = ground arith

  -- A registration that is reported as done has stored exactly the witnesses that were sent: their
  -- number is the one reported, every later request for the active ones is answered with them, and
  -- the keys that a quorum is counted against are theirs.
  pub active-register :
      (laws : LibraryLaws libs) (raw : List WitnessRequest) (now n : ℕ) (s s' : Node lib)
      → handle_register_witnesses lib kp (ok raw) now s ≡ (ok (registered n), s')
      → (ws : List Witness) × (read_witnesses now raw ≡ ok ws)
        × (n ≡ length ws)
        × ((τ : ℕ) → (handle_active_witnesses lib kp τ s').0 ≡ ok (active ws))
        × ((τ : ℕ)
            → (keys : List PubKey) × ((get_active_set badger witness_json τ s'.world.disk).0
                ≡ ok keys)
              × ((q : PubKey) → Memᴰ q keys ↔ Memᴰ q (map (λ w. w.pub_key) ws)))
  unfolding handle_register_witnesses handle_active_witnesses
  active-register laws raw now n s s' done = elim (Res-cases (read_witnesses now raw)) [
    | inl (ws, e) ↦
        let (r, d) = save_active_witnesses badger witness_json ws now s.world.disk in
        elim (Res-cases r) [
          | inl (_, saved) ↦
              let stored : save_active_witnesses badger witness_json ws now s.world.disk
                  ≡ (ok tt, d) =
                λ i. (saved i, d) in
              let at : s'.world.disk ≡ d = ground arith in
              (
                ws,
                e,
                ground arith,
                λ τ.
                    let found =
                      get_active_witnesses-save badger laws.badger_laws witness_json
                        laws.witness_json_laws ws now s.world.disk d stored τ in
                    ground (arith, at, found),
                λ τ.
                    let (keys, found, exact) =
                      get_active_set-save badger laws.badger_laws witness_json
                        laws.witness_json_laws ws now s.world.disk d stored τ in
                    (keys, rw at found, exact),
              )
          | inr (inl (x, saved)) ↦ absurd (ground arith)
          | inr (inr saved) ↦ absurd (ground arith)
        ]
    | inr (inl (x, e)) ↦ absurd (ground arith)
    | inr (inr e) ↦ absurd (ground arith)
  ]
