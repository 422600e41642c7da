-- ===== src/Node/Connections/Linked.antt =====
-- What holds of the table of the peers while the goroutines of the connections run in any order.
use cdml.Common.{
  ℕ, ℕ_discrete, zero, suc, ◌+◌, ◌≤◌, Bool, true, false, ◌||◌, Bytes, Bytes-discrete, ite, length,
  List, [], ◌∷◌, ◌++◌, some, ◌≡◌, ◌≢◌, ◌⊎◌, inl, inr, refl, sym, ap, ◌∙◌, subst, arith,
}
use cdml.Common.Maps.{lookup, insert, delete, lookup-insert, lookup-delete}
use cdml.Core.Types.{PubKey, max_peers}
use cdml.Network.Framing.{Connection}
use cdml.Network.Peer.{Peer, closed}
use cdml.Node.State.{Node, NodeLibraries, peer_at, alter}
use cdml.Node.Mutex.Deadlock.{peer_at-append}
use cdml.Node.Mutex.Reconnect.{peer_at-alter_other, peer_at-front}
use cdml.Node.Links.{links_of, SameLinks}
use cdml.Node.Connections.{
  Work, listening, shaking, dialing, adding, pumping, looping, closing, removing,
}

pub length-insert :
    (k : Bytes) (i : ℕ) (m : List (Bytes × ℕ)) → length (insert k i m) ≤ length m + 1
unfolding insert
length-insert k i [] = omega arith
length-insert k i ((j, b) ∷ m) = ground (arith, length-insert k i m)

pub length-delete : (k : Bytes) (m : List (Bytes × ℕ)) → length (delete k m) ≤ length m
unfolding delete
length-delete k [] = omega arith
length-delete k ((j, b) ∷ m) = ground (arith, length-delete k m)

pub peer_at-alter :
    (i : ℕ) (q : Peer) (ps : List Peer) (p : Peer)
    → peer_at i ps ≡ some p
    → peer_at i (alter i (λ _. q) ps) ≡ some q
unfolding peer_at alter
peer_at-alter i q [] p there = absurd (ground arith)
peer_at-alter zero q (r ∷ ps) p there = refl
peer_at-alter (suc i) q (r ∷ ps) p there = peer_at-alter i q ps p there

module _ (net : Connection) where
  -- a goroutine is about to remove this key
  abbrev pub removes : PubKey → List (Work net) → Bool
  removes key [] = false
  removes key (removing after k ∷ ws) = ite (Bytes-discrete k key) true (removes key ws)
  removes key (_ ∷ ws) = removes key ws

  pub removes-append :
      (key : PubKey) (xs ys : List (Work net))
      → removes key (xs ++ ys) ≡ (removes key xs || removes key ys)
  removes-append key [] ys = refl
  removes-append key (removing after k ∷ xs) ys = ground (arith, removes-append key xs ys)
  removes-append key (listening _ ∷ xs) ys = removes-append key xs ys
  removes-append key (shaking _ _ ∷ xs) ys = removes-append key xs ys
  removes-append key (dialing _ _ ∷ xs) ys = removes-append key xs ys
  removes-append key (adding _ _ _ _ ∷ xs) ys = removes-append key xs ys
  removes-append key (pumping _ ∷ xs) ys = removes-append key xs ys
  removes-append key (looping _ _ _ ∷ xs) ys = removes-append key xs ys
  removes-append key (closing _ _ ∷ xs) ys = removes-append key xs ys

module _ (lib : NodeLibraries) where
  -- the object of an entry has its key, and is open or about to be removed
  abbrev pub Registered : Bool → PubKey → ℕ → List Peer → Type 0
  Registered leaving key i conns =
      (p : Peer) × (peer_at i conns ≡ some p)
      × (p.pub_key ≡ key)
      × ((p.state ≢ closed) ⊎ (leaving ≡ true))

  -- the entries of the table, where `leaving` tells the keys that are about to be removed
  abbrev pub AllRegistered : (PubKey → Bool) → List (PubKey × ℕ) → List Peer → Type 0
  AllRegistered leaving peers conns =
      (key : PubKey) (i : ℕ) → lookup key peers ≡ some i → Registered (leaving key) key i conns

  -- the mutex is free, or held for ever with 50 peers
  abbrev pub Bounded : Node lib → Type 0
  Bounded s =
      ((s.mu_held ≡ false) × (length s.peers ≤ max_peers))
      ⊎ ((s.mu_held ≡ true) × (length s.peers ≡ max_peers))

  abbrev pub Sound : (PubKey → Bool) → Node lib → Type 0
  Sound leaving s = Bounded s × AllRegistered leaving s.peers s.conns

  pub AllRegistered-weaken :
      (l l' : PubKey → Bool) (peers : List (PubKey × ℕ)) (conns : List Peer)
      → ((key : PubKey) → l key ≡ true → l' key ≡ true)
      → AllRegistered l peers conns
      → AllRegistered l' peers conns
  AllRegistered-weaken l l' peers conns more all key i e =
      let (p, there, own, state) = all key i e in
      (p, there, own, elim state [ inl alive ↦ inl alive | inr gone ↦ inr (more key gone) ])

  pub AllRegistered-append :
      (l : PubKey → Bool) (peers : List (PubKey × ℕ)) (conns : List Peer) (q : Peer)
      → AllRegistered l peers conns
      → AllRegistered l peers (conns ++ q ∷ [])
  AllRegistered-append l peers conns q all key i e =
      let (p, there, own, state) = all key i e in
      (p, (peer_at-front i p q conns there).0, own, state)

  pub AllRegistered-insert :
      (l : PubKey → Bool) (peers : List (PubKey × ℕ)) (conns : List Peer) (q : Peer)
      → q.state ≢ closed
      → AllRegistered l peers conns
      → AllRegistered l (insert q.pub_key (length conns) peers) (conns ++ q ∷ [])
  AllRegistered-insert l peers conns q alive all key i e = elim (Bytes-discrete q.pub_key key) [
    | yes same ↦
        let here : length conns ≡ i =
          ground (arith, lookup-insert q.pub_key key (length conns) peers) in
        (
          q,
          subst (λ j. peer_at j (conns ++ q ∷ []) ≡ some q) here (peer_at-append conns q),
          same,
          inl alive,
        )
    | no apart ↦
        AllRegistered-append l peers conns q all key i
          (ground (arith, lookup-insert q.pub_key key (length conns) peers))
  ]

  pub AllRegistered-delete :
      (l l' : PubKey → Bool) (peers : List (PubKey × ℕ)) (conns : List Peer) (k : PubKey)
      → ((key : PubKey) → k ≢ key → l key ≡ true → l' key ≡ true)
      → AllRegistered l peers conns
      → AllRegistered l' (delete k peers) conns
  AllRegistered-delete l l' peers conns k more all key i e = elim (Bytes-discrete k key) [
    | yes same ↦ absurd (ground (arith, lookup-delete k key peers))
    | no apart ↦
        let (p, there, own, state) = all key i (ground (arith, lookup-delete k key peers)) in
        (p, there, own, elim state [ inl alive ↦ inl alive | inr gone ↦ inr (more key apart gone) ])
  ]

  -- an object is changed, to one with the same key that is not closed where it was not, or whose key is
  -- about to be removed
  pub AllRegistered-alter :
      (l : PubKey → Bool) (peers : List (PubKey × ℕ)) (conns : List Peer) (j : ℕ) (q q' : Peer)
      → peer_at j conns ≡ some q
      → q'.pub_key ≡ q.pub_key
      → (q'.state ≡ q.state) ⊎ (l q.pub_key ≡ true)
      → AllRegistered l peers conns
      → AllRegistered l peers (alter j (λ _. q') conns)
  AllRegistered-alter l peers conns j q q' there same how all key i e =
      let (p, at_i, own, state) = all key i e in
      elim (ℕ_discrete j i) [
        | no apart ↦ (p, peer_at-alter_other j i (λ _. q') conns apart ∙ at_i, own, state)
        | yes here ↦
            let is_q : p ≡ q = ground arith in
            (
              q',
              subst (λ k. peer_at k (alter j (λ _. q') conns) ≡ some q') here
                  (peer_at-alter j q' conns q there),
              same ∙ ap (λ (x : Peer). x.pub_key) (sym is_q) ∙ own,
              elim how [
                | inr gone ↦ inr (ground arith)
                | inl kept ↦ elim state [ inr gone ↦ inr gone | inl alive ↦ inl (ground arith) ]
              ],
            )
      ]

  pub linked :
      (i : ℕ) (p : Peer) (ps qs : List Peer)
      → links_of qs ≡ links_of ps
      → peer_at i ps ≡ some p
      → (q : Peer) × (peer_at i qs ≡ some q) × (q.pub_key ≡ p.pub_key) × (q.state ≡ p.state)
  unfolding peer_at links_of
  linked i p [] qs same there = absurd (ground arith)
  linked i p (a ∷ ps) [] same there = absurd (ground arith)
  linked zero p (a ∷ ps) (b ∷ qs) same there = (b, refl, ground arith, ground arith)
  linked (suc i) p (a ∷ ps) (b ∷ qs) same there = linked i p ps qs (ground arith) there

  pub Sound-SameLinks :
      (l : PubKey → Bool) (s s' : Node lib) → SameLinks lib s s' → Sound l s → Sound l s'
  Sound-SameLinks l s s' same (bounded, all) = (
    ground (arith, same.peers, same.mutex),
    λ key i e.
        let (p, there, own, state) =
          all key i (ap (λ (m : List (PubKey × ℕ)). lookup key m) (sym same.peers) ∙ e) in
        let (q, at_i, as_key, as_state) = linked i p s.conns s'.conns same.links there in
        (
          q,
          at_i,
          as_key ∙ own,
          elim state [ inr gone ↦ inr gone | inl alive ↦ inl (λ c. alive (sym as_state ∙ c)) ],
        ),
  )
