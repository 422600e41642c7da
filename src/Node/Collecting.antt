-- ===== src/Node/Collecting.antt =====
-- Handlers of witness signatures of one transaction that run at the same time: handleWitnessSig
-- (node/node.go) finds the pending entry under n.mu, appends to it under its own sigMu, and deletes
-- it and starts the confirmation after both are released.
pub mod Pending
use cdml.Common.{
  ℕ, zero, suc, leb, map, ◌+◌, ◌==◌, ◌&&◌, Bool, true, false, not, if◌then◌else◌, length,
  length-append, List, [], ◌∷◌, ◌++◌, ◌≡◌, refl, arith,
}
use cdml.Core.Types.{Transaction, WitnessSignature}
use cdml.Node.State.{PendingMeta, quorum_k}

-- how far a handler is
pub data Handling : Type 0 where
  arrived : WitnessSignature → Handling
  found : WitnessSignature → Handling
  deciding : List WitnessSignature → Handling
  left : Handling

-- the entry of the transaction: whether pendingTx has it, the object that the handlers share, and the
-- signatures with which a confirmation was started
pub record Collection : Type 0 where
  pub listed : Bool
  pub meta : PendingMeta
  pub started : List (List WitnessSignature)

-- the section under sigMu
unfoldable pub append_sig : WitnessSignature → Collection → Handling × Collection
append_sig sig c =
    let sigs = c.meta.sigs ++ sig ∷ [] in
    let should_confirm = (length sigs == quorum_k) && not c.meta.confirmed in
    (
      if should_confirm then deciding sigs else left,
      record c {
        meta = record (c.meta) {
          sigs = sigs;
          confirmed = if should_confirm then true else c.meta.confirmed;
        };
      },
    )

-- The next step of a handler. One that finds no entry forwards the packet, which does not touch the
-- collection.
unfoldable pub advance : Handling → Collection → Handling × Collection
unfolding append_sig
advance (arrived sig) c = (if c.listed then found sig else left, c)
advance (found sig) c = append_sig sig c
advance (deciding sigs) c = (left, record c { listed = false; started = sigs ∷ c.started })
advance left c = (left, c)

-- the handler at a position makes a step
unfoldable pub step_at : ℕ → List Handling → Collection → List Handling × Collection
unfolding advance
step_at i [] c = ([], c)
step_at zero (h ∷ hs) c = let (h', c') = advance h c in (h' ∷ hs, c')
step_at (suc i) (h ∷ hs) c = let (hs', c') = step_at i hs c in (h ∷ hs', c')

-- any interleaving: the positions of the handlers in the order of their steps
unfoldable pub interleave : List ℕ → List Handling × Collection → List Handling × Collection
unfolding step_at
interleave [] (hs, c) = (hs, c)
interleave (i ∷ steps) (hs, c) = interleave steps (step_at i hs c)

-- the handlers that will start a confirmation
abbrev pub deciders : List Handling → ℕ
deciders [] = 0
deciders (deciding _ ∷ hs) = 1 + deciders hs
deciders (_ ∷ hs) = deciders hs

-- a confirmation was started, or will be, once the entry has three signatures, and not before
abbrev pub IsOnce : List Handling × Collection → Type 0
IsOnce (hs, c) =
    (deciders hs + length c.started ≡ (if leb quorum_k (length c.meta.sigs) then 1 else 0))
    × (c.meta.confirmed ≡ leb quorum_k (length c.meta.sigs))

pub step_at_once :
    (i : ℕ) (hs : List Handling) (c : Collection) (k : ℕ)
    → (k + deciders hs + length c.started ≡ (if leb quorum_k (length c.meta.sigs) then 1 else 0))
    → (c.meta.confirmed ≡ leb quorum_k (length c.meta.sigs))
    → (let (hs', c') = step_at i hs c in
        (k + deciders hs' + length c'.started
          ≡ (if leb quorum_k (length c'.meta.sigs) then 1 else 0))
        × (c'.meta.confirmed ≡ leb quorum_k (length c'.meta.sigs)))
unfolding step_at advance append_sig
step_at_once i [] c k e f = (e, f)
step_at_once zero (arrived sig ∷ hs) c k e f = ground arith
step_at_once zero (found sig ∷ hs) c k e f = ground (arith, length-append c.meta.sigs (sig ∷ []))
step_at_once zero (deciding sigs ∷ hs) c k e f = ground arith
step_at_once zero (left ∷ hs) c k e f = (e, f)
step_at_once (suc i) (arrived sig ∷ hs) c k e f = step_at_once i hs c k e f
step_at_once (suc i) (found sig ∷ hs) c k e f = step_at_once i hs c k e f
step_at_once (suc i) (deciding sigs ∷ hs) c k e f =
    ground (arith, step_at_once i hs c (k + 1) (omega arith) f)
step_at_once (suc i) (left ∷ hs) c k e f = step_at_once i hs c k e f

-- the entry as SendTx makes it
abbrev pub fresh : Transaction → Collection
fresh tx = record {
  listed = true;
  meta = record { tx = tx; sigs = []; confirmed = false };
  started = [];
}

pub deciders-arrived : (sigs : List WitnessSignature) → deciders (map arrived sigs) ≡ 0
deciders-arrived [] = refl
deciders-arrived (s ∷ sigs) = deciders-arrived sigs
