-- ===== src/Storage/Snapshots/Stored.antt =====
-- What was saved is what is found, and the active set holds exactly the keys of the witnesses.
use mathlib.Core.List.{Memᴰ}
use mathlib.Core.List.Memᴰ
use mathlib.Core.Logic.{⊎_elim}
use cdml.Common.{
  ℕ, Bytes-discrete, List, [], ◌∷◌, map, some, contains_iff, Memᴰ-cons, ◌≡◌, ◌↔◌, ◌⊎◌, inl, inr,
  arith,
}
use cdml.Core.Errors.{ok, Res-cases}
use cdml.Core.Types.{PubKey, Snapshot, Witness}
use cdml.Json.{Json, JsonLaws}
use cdml.Storage.Badger.{Badger, BadgerLaws}
use cdml.Storage.Keys.{snap_key, active_witnesses_key}
use cdml.Storage.Chain.{decode}
use cdml.Storage.Db
use cdml.Storage.Db.Laws.{read-set}
use cdml.Storage.Snapshots.{
  add_key, key_set, save_snapshot, get_latest, save_active_witnesses, get_active_witnesses,
  get_active_set,
}

mem-add_key :
    (pk q : PubKey) (keys : List PubKey) → Memᴰ q (add_key pk keys) ↔ ((q ≡ pk) ⊎ Memᴰ q keys)
unfolding add_key
mem-add_key pk q keys = ground (
  arith,
  contains_iff Bytes-discrete pk keys,
  Memᴰ-cons q pk keys,
  λ (e : q ≡ pk) (m : Memᴰ pk keys). Memᴰ.cast e m,
)

pub mem-key_set :
    (ws : List Witness) (keys : List PubKey) (q : PubKey)
    → Memᴰ q (key_set ws keys) ↔ (Memᴰ q (map (λ w. w.pub_key) ws) ⊎ Memᴰ q keys)
unfolding key_set
mem-key_set [] keys q = (inr, ⊎_elim (λ m. absurd (Memᴰ.not-nil m)) (λ m. m))
mem-key_set (w ∷ ws) keys q = ground (
  arith,
  mem-key_set ws (add_key w.pub_key keys) q,
  mem-add_key w.pub_key q keys,
  Memᴰ-cons q w.pub_key (map (λ (x : Witness). x.pub_key) ws),
)

module _ (b : Badger) (laws : BadgerLaws b) where
  open b use {Disk}

  -- A snapshot that was saved without an error is the latest one of its owner.
  pub get_latest-save_snapshot :
      (json : Json Snapshot)
      → JsonLaws json
      → (snap : Snapshot) (now : ℕ) (d d' : Disk) → save_snapshot b json snap now d ≡ (ok tt, d')
      → (τ : ℕ) → (get_latest b json snap.pub_key τ d').0 ≡ ok (some snap)
  unfolding save_snapshot get_latest Db.get decode
  get_latest-save_snapshot json coded snap now d d' h τ = elim (Res-cases (json.marshal snap)) [
    | inl (bs, e) ↦ ground (
      arith,
      read-set b laws (snap_key snap.pub_key) bs now d d' (rw e at h) τ (snap_key snap.pub_key),
      coded.unmarshal-marshal snap bs e,
    )
    | inr (inl (x, e)) ↦ ground arith
    | inr (inr e) ↦ ground arith
  ]

  pub get_active_witnesses-save :
      (json : Json (List Witness))
      → JsonLaws json
      → (ws : List Witness) (now : ℕ) (d d' : Disk)
      → save_active_witnesses b json ws now d ≡ (ok tt, d')
      → (τ : ℕ) → get_active_witnesses b json τ d' ≡ (ok ws, d')
  unfolding save_active_witnesses get_active_witnesses Db.get decode
  get_active_witnesses-save json coded ws now d d' h τ = elim (Res-cases (json.marshal ws)) [
    | inl (bs, e) ↦ ground (
      arith,
      read-set b laws active_witnesses_key bs now d d' (rw e at h) τ active_witnesses_key,
      coded.unmarshal-marshal ws bs e,
    )
    | inr (inl (x, e)) ↦ ground arith
    | inr (inr e) ↦ ground arith
  ]

  -- After the witnesses were registered without an error, the active set can be read, and a key is
  -- in it exactly if it is the key of one of the witnesses.
  pub get_active_set-save :
      (json : Json (List Witness))
      → JsonLaws json
      → (ws : List Witness) (now : ℕ) (d d' : Disk)
      → save_active_witnesses b json ws now d ≡ (ok tt, d')
      → (τ : ℕ)
      → (keys : List PubKey) × ((get_active_set b json τ d').0 ≡ ok keys)
        × ((q : PubKey) → Memᴰ q keys ↔ Memᴰ q (map (λ w. w.pub_key) ws))
  unfolding save_active_witnesses get_active_set Db.get decode
  get_active_set-save json coded ws now d d' h τ = elim (Res-cases (json.marshal ws)) [
    | inl (bs, e) ↦
        let found =
          read-set b laws active_witnesses_key bs now d d' (rw e at h) τ active_witnesses_key in
        (
          key_set ws [],
          ground (arith, found, coded.unmarshal-marshal ws bs e),
          λ q. ground (arith, mem-key_set ws [] q, λ (m : Memᴰ q []). Memᴰ.not-nil m),
        )
    | inr (inl (x, e)) ↦ absurd (ground arith)
    | inr (inr e) ↦ absurd (ground arith)
  ]
