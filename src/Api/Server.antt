-- ===== src/Api/Server.antt =====
-- api/server.go: the routes of NewServer, cors, and the handler that a request reaches. The match of a
-- path is that of http.ServeMux; a path is given with its escapes decoded. The decoders of the bodies
-- are parameters. The listener, the time limits and the log are not modelled.
pub mod Word
pub mod Safe
use cdml.Common.{
  ℕ, ◌==◌, ◌||◌, Bool, true, false, if◌then◌else◌, Bytes, Bytes-discrete, ite, List, [], ◌∷◌,
}
use cdml.Core.Errors.{Res}
use cdml.Exec.{Exec, pure, ◌>>=◌}
use cdml.Json.{Json}
use cdml.Crypto.KeyPair.{KeyPair}
use cdml.Node.State.{Node, NodeLibraries}
use cdml.Api.{
  Reply, SendTxRequest, FaucetRequest, WitnessRequest, handle_healthz, handle_status,
  handle_balance, handle_send_tx, handle_get_tx, handle_peers, handle_faucet,
  handle_active_witnesses, handle_create_snapshot, handle_register_witnesses,
}
use cdml.Api.Server.Word

pub data Method : Type 0 where
  get head post options other : Method

-- the decoders of the bodies
pub record Bodies : Type 0 where
  pub send_tx_json : Json SendTxRequest
  pub faucet_json : Json FaucetRequest
  pub witnesses_json : Json (List WitnessRequest)

pub record Request : Type 0 where
  pub method : Method
  pub path : Bytes
  pub body : Bytes

-- a path, cut at its slashes
unfoldable pub segments : Bytes → List Bytes
segments [] = [] ∷ []
segments (c ∷ cs) =
    let rest = segments cs in
    if c == b'/'
    then [] ∷ rest
    else elim rest [ [] ↦ (c ∷ []) ∷ [] | seg ∷ more ↦ (c ∷ seg) ∷ more ]

-- what the patterns stand for, with the values of their wildcards
pub data Resource : Type 0 where
  healthz status peers active_witnesses : Resource
  send_tx create_snapshot faucet register_witnesses : Resource
  balance : Bytes → Resource
  get_tx : Bytes → Bytes → Resource
  unknown : Resource

abbrev is : Bytes → Bytes → Bool
is word seg = ite (Bytes-discrete seg word) true false

-- a wildcard takes one segment that is not empty
abbrev wild : (Bytes → Resource) → Bytes → Resource
wild f [] = unknown
wild f (c ∷ cs) = f (c ∷ cs)

-- the segments after "/v1/"
unfoldable pub versioned : List Bytes → Resource
unfolding Bytes-discrete
versioned (a ∷ []) =
    if is Word.status a
    then status
    else if is Word.tx a
    then send_tx
    else if is Word.peers a
    then peers
    else if is Word.snapshot a
    then create_snapshot
    else if is Word.faucet a
    then faucet
    else unknown
versioned (a ∷ b ∷ []) =
    if is Word.balance a
    then wild balance b
    else if is Word.witness a
    then if is Word.active b
      then active_witnesses
      else if is Word.register b
      then register_witnesses
      else unknown
    else unknown
versioned (a ∷ b ∷ c ∷ []) =
    if is Word.tx a then wild (λ pk. wild (λ seq. get_tx pk seq) c) b else unknown
versioned _ = unknown

unfoldable pub resource : List Bytes → Resource
unfolding versioned
resource ([] ∷ a ∷ []) = if is Word.healthz a then healthz else unknown
resource ([] ∷ a ∷ rest) = if is Word.v1 a then versioned rest else unknown
resource _ = unknown

-- cleanPath leaves the path as it is: no segment is "." or "..", and none is empty but the last
unfoldable pub is_clean : List Bytes → Bool
unfolding Bytes-discrete
is_clean [] = true
is_clean ([] ∷ []) = true
is_clean ([] ∷ _) = false
is_clean ((c ∷ cs) ∷ rest) =
    let clean = is_clean rest in
    if is Word.dot (c ∷ cs) || is Word.dot_dot (c ∷ cs) then false else clean

-- the first segment is what stands in front of the leading slash
abbrev is_clean_path : List Bytes → Bool
is_clean_path [] = true
is_clean_path (_ ∷ segs) = is_clean segs

-- what is sent back
pub data Served : Type 0 where
  no_content redirected not_found method_not_allowed : Served
  answered : Reply → Served

module _ (lib : NodeLibraries) (kp : KeyPair) (bodies : Bodies) where
  abbrev pub answers : Exec (Node lib) Reply → Exec (Node lib) Served
  answers m = do reply ← m; pure (answered reply)

  -- a pattern "GET ..." takes HEAD too
  unfoldable pub on_get : Resource → Exec (Node lib) Served
  on_get healthz = answers (handle_healthz lib kp)
  on_get status = answers (handle_status lib kp)
  on_get (balance pk) = answers (handle_balance lib kp pk)
  on_get (get_tx pk seq) = answers (handle_get_tx lib kp pk seq)
  on_get peers = answers (handle_peers lib kp)
  on_get active_witnesses = answers (handle_active_witnesses lib kp)
  on_get unknown = pure not_found
  on_get _ = pure method_not_allowed

  -- `random` is what crypto/rand gives
  unfoldable pub on_post : Res Bytes → Bytes → Resource → Exec (Node lib) Served
  on_post random body send_tx =
      answers (handle_send_tx lib kp (bodies.send_tx_json.unmarshal body) random)
  on_post random body register_witnesses =
      answers (handle_register_witnesses lib kp (bodies.witnesses_json.unmarshal body))
  on_post random body create_snapshot = answers (handle_create_snapshot lib kp)
  on_post random body faucet = answers (handle_faucet lib kp (bodies.faucet_json.unmarshal body))
  on_post random body unknown = pure not_found
  on_post random body _ = pure method_not_allowed

  abbrev not_routed : Resource → Served
  not_routed unknown = not_found
  not_routed _ = method_not_allowed

  -- the mux
  unfoldable pub mux : Res Bytes → Request → Exec (Node lib) Served
  unfolding segments resource is_clean on_get on_post
  mux random req =
      let segs = segments req.path in
      if is_clean_path segs
      then elim (req.method) [
        | Method.get ↦ on_get (resource segs)
        | Method.head ↦ on_get (resource segs)
        | Method.post ↦ on_post random req.body (resource segs)
        | _ ↦ pure (not_routed (resource segs))
      ]
      else pure redirected

  -- cors in front of the mux
  unfoldable pub serve : Res Bytes → Request → Exec (Node lib) Served
  unfolding mux
  serve random req = elim (req.method) [ Method.options ↦ pure no_content | _ ↦ mux random req ]
