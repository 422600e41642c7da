-- ===== src/Scripts/Localnet/Witnesses.antt =====
-- What a run of init.go that ends leaves in the nodes: one set of witnesses.
use mathlib.Core.List.{Memᴰ}
use mathlib.Core.List.Memᴰ
use mathlib.Core.Logic.{⊎_elim}
use cdml.Common.{
  ℕ, zero, suc, Bool, Bytes, length, List, [], ◌∷◌, map, some, ◌≡◌, ◌↔◌, refl, sym, ap, subst, ◌∙◌,
  inl, inr, Option-cases, arith,
}
use cdml.Core.Errors.{ok, Res-cases}
use cdml.Core.Types.{PubKey, Witness}
use cdml.Json.{JsonLaws}
use cdml.Protocol.Processor.World.{LibraryLaws}
use cdml.Storage.Snapshots.{get_active_set}
use cdml.Node.State.{NodeLibraries}
use cdml.Api.{
  registered, hex_encode, WitnessRequest, read_witnesses, handle_status, handle_register_witnesses,
}
use cdml.Api.Keys.{AllBytes, pub_key_from_hex-hex_encode}
use cdml.Api.Witnesses.{active-register}
use cdml.Api.Server.{Bodies, answered, segments, resource, is_clean, on_get, on_post, mux, serve}
use cdml.Scripts.Cli.Session.{status_request}
use cdml.Scripts.Localnet.Init.{
  Site, Finished, ask, reported, key_of, keys_of, give_all, witnesses_of, register_request,
  register_all, init,
}

length-keys : (ws : List Witness) → length (map (λ (w : Witness). w.pub_key) ws) ≡ length ws
length-keys [] = refl
length-keys (w ∷ ws) = ap suc (length-keys ws)

module _ (lib : NodeLibraries) (bodies : Bodies) where
  open lib use {libs}
  open libs use {badger, witness_json}

  -- the keys of the nodes
  abbrev pub publics : List (Site lib) → List PubKey
  publics [] = []
  publics (site ∷ sites) = site.kp.public ∷ publics sites

  length-publics : (sites : List (Site lib)) → length (publics sites) ≡ length sites
  length-publics [] = refl
  length-publics (site ∷ sites) = ap suc (length-publics sites)

  -- the keys as the nodes print them
  abbrev pub printed : List (Site lib) → List Bytes
  printed [] = []
  printed (site ∷ sites) = hex_encode site.kp.public ∷ printed sites

  -- the keys are 32 bytes
  abbrev pub AllKeys : List (Site lib) → Type 0
  AllKeys [] = Unit {0}
  AllKeys (site ∷ sites) = AllBytes site.kp.public × (length site.kp.public ≡ 32) × AllKeys sites

  key_of-printed :
      (left attempt now : ℕ) (site : Site lib) (key : Bytes)
      → key_of lib bodies left attempt now site ≡ some key
      → key ≡ hex_encode site.kp.public
  unfolding key_of reported serve mux on_get status_request segments resource is_clean handle_status
  key_of-printed zero attempt now site key h = cc
  key_of-printed (suc left) attempt now site key h =
      ground (arith, key_of-printed left (suc attempt) now site key)

  keys_of-printed :
      (now : ℕ) (sites : List (Site lib)) (keys : List Bytes)
      → keys_of lib bodies now sites ≡ some keys
      → keys ≡ printed sites
  unfolding keys_of
  keys_of-printed now [] keys h = ground arith
  keys_of-printed now (site ∷ sites) keys h =
      elim (Option-cases (key_of lib bodies 10 0 now site)) [
        | inl e ↦ absurd (ground arith)
        | inr (key, e) ↦ elim (Option-cases (keys_of lib bodies now sites)) [
          | inl f ↦ absurd (ground arith)
          | inr (rest, f) ↦
              let first = key_of-printed 10 0 now site key e in
              let others = keys_of-printed now sites rest f in ground arith
        ]
      ]

  witnesses_of-given :
      (now : ℕ) (sites : List (Site lib)) (keys : List Bytes)
      → witnesses_of lib bodies (give_all lib bodies now sites keys) keys
        ≡ witnesses_of lib bodies sites keys
  unfolding give_all witnesses_of
  witnesses_of-given now [] [] = refl
  witnesses_of-given now [] (key ∷ keys) = refl
  witnesses_of-given now (site ∷ sites) [] = refl
  witnesses_of-given now (site ∷ sites) (key ∷ keys) =
      ground (arith, witnesses_of-given now sites keys)

  -- the witnesses that the nodes are sent are read as their keys
  read_witnesses_of :
      (now : ℕ) (sites : List (Site lib)) (ws : List Witness)
      → AllKeys sites
      → read_witnesses now (witnesses_of lib bodies sites (printed sites)) ≡ ok ws
      → map (λ (w : Witness). w.pub_key) ws ≡ publics sites
  unfolding read_witnesses witnesses_of
  read_witnesses_of now [] ws all h = ground arith
  read_witnesses_of now (site ∷ sites) ws (bytes, size, all) h =
      let key = pub_key_from_hex-hex_encode site.kp.public bytes size in
      elim (Res-cases (read_witnesses now (witnesses_of lib bodies sites (printed sites)))) [
        | inl (rest, e) ↦ let later = read_witnesses_of now sites rest all e in ground arith
        | inr (inl (x, e)) ↦ absurd (ground arith)
        | inr (inr e) ↦ absurd (ground arith)
      ]

  -- the quorum of a node is counted against these keys, at any instant
  pub record IsQuorum (who : List PubKey) (site : Site lib) (τ : ℕ) : Type 0 where
    pub keys : List PubKey
    pub read : (get_active_set badger witness_json τ site.state.world.disk).0 ≡ ok keys
    pub exact : (q : PubKey) → Memᴰ q keys ↔ Memᴰ q who

  module _ (laws : LibraryLaws libs) (coded : JsonLaws bodies.witnesses_json) where
    registered_by :
        (up : Bool) (raw : List WitnessRequest) (bs : Bytes) (now n : ℕ) (site site' : Site lib)
        → bodies.witnesses_json.marshal raw ≡ ok bs
        → ask lib bodies up (register_request lib bodies raw) now site
          ≡ (ok (answered (registered n)), site')
        → handle_register_witnesses lib site.kp (ok raw) now site.state
          ≡ (ok (registered n), site'.state)
    unfolding serve mux on_post register_request segments resource is_clean
    registered_by up raw bs now n site site' e h =
        let (r, s) = handle_register_witnesses lib site.kp (ok raw) now site.state in
        let decoded = coded.unmarshal-marshal raw bs e in
        elim (Res-cases r) [
          | inl (reply, f) ↦ ground arith
          | inr (inl (x, f)) ↦ absurd (ground arith)
          | inr (inr f) ↦ absurd (ground arith)
        ]

    register_all-IsQuorum :
        (raw : List WitnessRequest) (bs : Bytes) (now n : ℕ) (sites : List (Site lib))
        (site' : Site lib)
        → bodies.witnesses_json.marshal raw ≡ ok bs
        → Memᴰ (ok (answered (registered n)), site') (register_all lib bodies raw now sites)
        → (ws : List Witness) × (read_witnesses now raw ≡ ok ws)
          × (n ≡ length ws)
          × ((τ : ℕ) → IsQuorum (map (λ (w : Witness). w.pub_key) ws) site' τ)
    unfolding register_all
    register_all-IsQuorum raw bs now n [] site' e m = absurd (Memᴰ.not-nil m)
    register_all-IsQuorum raw bs now n (site ∷ sites) site' e m =
        ⊎_elim
          (λ h.
            let (ws, read, size, _, sets) =
              active-register lib site.kp laws raw now n site.state site'.state
                (registered_by site.line.register raw bs now n site site' e (sym h)) in
            (
              ws,
              read,
              size,
              λ τ.
                  let (keys, found, exact) = sets τ in
                  record { keys = keys; read = found; exact = exact },
            ))
          (register_all-IsQuorum raw bs now n sites site' e) (Memᴰ.cases_cons m)

    init_steps :
        (t1 t2 t3 t4 : ℕ) (sites : List (Site lib)) (fin : Finished lib bodies)
        → init lib bodies t1 t2 t3 t4 sites ≡ some fin
        → (let given = give_all lib bodies t2 sites (printed sites) in
            fin.answers
            ≡ register_all lib bodies (witnesses_of lib bodies given (printed sites)) t3 given)
    unfolding init
    init_steps t1 t2 t3 t4 [] fin h = cc
    init_steps t1 t2 t3 t4 (first ∷ others) fin h =
        elim (Option-cases (keys_of lib bodies t1 (first ∷ others))) [
          | inl e ↦ absurd (ground arith)
          | inr (keys, e) ↦ let same = keys_of-printed t1 (first ∷ others) keys e in ground arith
        ]

    -- After a run of init.go that ends, every node that has reported its registration as done has the
    -- same quorum: it has counted all the nodes, and the keys that it counts signatures against, at
    -- any later instant, are exactly the keys of all the nodes, whatever the connections and the
    -- databases did at the other nodes. (The keys are 32 bytes, and the list of witnesses can be
    -- encoded.)
    pub init_registers :
        (t1 t2 t3 t4 n : ℕ) (sites : List (Site lib)) (bs : Bytes) (fin : Finished lib bodies)
        (site' : Site lib)
        → AllKeys sites
        → bodies.witnesses_json.marshal (witnesses_of lib bodies sites (printed sites)) ≡ ok bs
        → init lib bodies t1 t2 t3 t4 sites ≡ some fin
        → Memᴰ (ok (answered (registered n)), site') fin.answers
        → (n ≡ length sites) × ((τ : ℕ) → IsQuorum (publics sites) site' τ)
    init_registers t1 t2 t3 t4 n sites bs fin site' all e done m =
        let given = give_all lib bodies t2 sites (printed sites) in
        let (ws, read, size, quorum) =
          register_all-IsQuorum (witnesses_of lib bodies sites (printed sites)) bs t3 n given site'
            e
            (subst (Memᴰ (ok (answered (registered n)), site'))
              (init_steps t1 t2 t3 t4 sites fin done
                ∙ ap (λ raw. register_all lib bodies raw t3 given)
                    (witnesses_of-given t2 sites (printed sites)))
              m) in
        let named = read_witnesses_of t3 sites ws all read in
        (
          size ∙ sym (length-keys ws) ∙ ap length named ∙ length-publics sites,
          λ τ. subst (λ who. IsQuorum who site' τ) named (quorum τ),
        )
