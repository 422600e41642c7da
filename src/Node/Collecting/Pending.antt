-- ===== src/Node/Collecting/Pending.antt =====
-- Where the entry of a transaction stands while its handlers run in any order: what pendingTx, the
-- shared object and the confirmations of handleWitnessSig (node/node.go) have at the same time.
use cdml.Common.{
  ℕ, ℕ_discrete, dec_lt, zero, suc, map, ◌+◌, ◌==◌, ◌≤◌, ◌<◌, true, false, length, length-append,
  take, leb, if◌then◌else◌, List, [], ◌∷◌, ◌++◌, ◌≡◌, ◌⊎◌, inl, inr, refl, sym, subst, ◌∙◌, ap,
  arith,
}
use cdml.Core.Types.{Transaction, WitnessSignature}
use cdml.Node.State.{quorum_k}
use cdml.Node.Collecting.{
  Handling, arrived, found, deciding, left, Collection, append_sig, advance, step_at, interleave,
  deciders, fresh, deciders-arrived, step_at_once, IsOnce,
}

take_past : {A : Type 0} (n : ℕ) (xs ys : List A) → n ≤ length xs → take n (xs ++ ys) ≡ take n xs
take_past zero xs ys h = refl
take_past (suc n) [] ys h = absurd (omega arith)
take_past (suc n) (x ∷ xs) ys h = ap (λ l. x ∷ l) (take_past n xs ys (omega arith))

take_all : {A : Type 0} (n : ℕ) (xs : List A) → length xs ≡ n → take n xs ≡ xs
take_all zero [] h = refl
take_all zero (x ∷ xs) h = absurd (omega arith)
take_all (suc n) [] h = refl
take_all (suc n) (x ∷ xs) h = ap (λ l. x ∷ l) (take_all n xs (omega arith))

-- the handlers that will start a confirmation do so with these signatures
abbrev AreFirst : List WitnessSignature → List Handling → Type 0
AreFirst first [] = Unit {0}
AreFirst first (deciding sigs ∷ hs) = (sigs ≡ first) × AreFirst first hs
AreFirst first (_ ∷ hs) = AreFirst first hs

-- and so were the confirmations that were started
abbrev AllWith : List WitnessSignature → List (List WitnessSignature) → Type 0
AllWith first [] = Unit {0}
AllWith first (sigs ∷ started) = (sigs ≡ first) × AllWith first started

none-AreFirst :
    (first : List WitnessSignature) (hs : List Handling) → deciders hs ≡ 0 → AreFirst first hs
none-AreFirst first [] e = tt
none-AreFirst first (arrived sig ∷ hs) e = none-AreFirst first hs e
none-AreFirst first (found sig ∷ hs) e = none-AreFirst first hs e
none-AreFirst first (deciding sigs ∷ hs) e = absurd (omega arith)
none-AreFirst first (left ∷ hs) e = none-AreFirst first hs e

-- what the invariant says besides the count of confirmations
abbrev Firsts : List Handling × Collection → Type 0
Firsts (hs, c) =
    AreFirst (take quorum_k c.meta.sigs) hs
    × AllWith (take quorum_k c.meta.sigs) c.started
    × (c.listed ≡ (length c.started == 0))

-- one more signature leaves the first three of an entry that has three
first_stays :
    (sigs : List WitnessSignature) (sig : WitnessSignature)
    → quorum_k ≤ length sigs
    → take quorum_k (sigs ++ sig ∷ []) ≡ take quorum_k sigs
first_stays sigs sig enough = take_past quorum_k sigs (sig ∷ []) enough

step_at-take :
    (i : ℕ) (hs : List Handling) (c : Collection)
    → quorum_k ≤ length c.meta.sigs
    → take quorum_k (step_at i hs c).1.meta.sigs ≡ take quorum_k c.meta.sigs
unfolding step_at advance append_sig
step_at-take i [] c enough = refl
step_at-take zero (arrived sig ∷ hs) c enough = refl
step_at-take zero (found sig ∷ hs) c enough = first_stays c.meta.sigs sig enough
step_at-take zero (deciding sigs ∷ hs) c enough = refl
step_at-take zero (left ∷ hs) c enough = refl
step_at-take (suc i) (h ∷ hs) c enough = step_at-take i hs c enough

none-AllWith :
    (first : List WitnessSignature) (started : List (List WitnessSignature))
    → length started ≡ 0
    → AllWith first started
none-AllWith first [] e = tt
none-AllWith first (sigs ∷ started) e = absurd (omega arith)

-- the handler that appends a signature, where the entry had fewer than three
append_early :
    (sig : WitnessSignature) (hs : List Handling) (c : Collection)
    → deciders hs + length c.started ≡ 0
    → length c.meta.sigs < quorum_k
    → c.meta.confirmed ≡ false
    → Firsts (found sig ∷ hs, c)
    → Firsts (step_at zero (found sig ∷ hs) c)
unfolding step_at advance append_sig
append_early sig hs c none few fresh (_, _, listed) =
    let sigs = c.meta.sigs ++ sig ∷ [] in
    let first = take quorum_k sigs in
    let idle = none-AreFirst first hs (omega arith) in
    let unused = none-AllWith first c.started (omega arith) in
    let grown = length-append c.meta.sigs (sig ∷ []) in
    elim (ℕ_discrete (length c.meta.sigs) 2) [
      | yes two ↦
          let whole : take quorum_k sigs ≡ sigs = take_all quorum_k sigs (grown ∙ omega arith) in
          ground (arith, grown, whole, idle, unused)
      | no other ↦ ground (arith, grown, idle, unused)
    ]

-- and where it had three
append_late :
    (sig : WitnessSignature) (hs : List Handling) (c : Collection)
    → quorum_k ≤ length c.meta.sigs
    → Firsts (found sig ∷ hs, c)
    → Firsts (step_at zero (found sig ∷ hs) c)
unfolding step_at advance append_sig
append_late sig hs c enough (idle, unused, listed) =
    let same = first_stays c.meta.sigs sig enough in
    let grown = length-append c.meta.sigs (sig ∷ []) in
    let idle' = subst (λ l. AreFirst l hs) (sym same) idle in
    let unused' = subst (λ l. AllWith l c.started) (sym same) unused in
    ground (arith, grown, idle', unused')

step_at_first :
    (i : ℕ) (hs : List Handling) (c : Collection) (k : ℕ)
    → (k + deciders hs + length c.started ≡ (if leb quorum_k (length c.meta.sigs) then 1 else 0))
    → (c.meta.confirmed ≡ leb quorum_k (length c.meta.sigs))
    → Firsts (hs, c)
    → Firsts (step_at i hs c)
unfolding step_at advance
step_at_first i [] c k e f firsts = firsts
step_at_first zero (arrived sig ∷ hs) c k e f firsts = ground arith
step_at_first zero (found sig ∷ hs) c k e f firsts = elim (dec_lt (length c.meta.sigs) quorum_k) [
  | yes few ↦ append_early sig hs c (ground arith) few (ground arith) firsts
  | no enough ↦ append_late sig hs c (omega arith) firsts
]
step_at_first zero (deciding sigs ∷ hs) c k e f ((own, idle), unused, listed) =
    (idle, (own, unused), ground arith)
step_at_first zero (left ∷ hs) c k e f firsts = firsts
step_at_first (suc i) (arrived sig ∷ hs) c k e f firsts = step_at_first i hs c k e f firsts
step_at_first (suc i) (found sig ∷ hs) c k e f firsts = step_at_first i hs c k e f firsts
step_at_first (suc i) (deciding sigs ∷ hs) c k e f ((own, idle), unused, listed) =
    let (idle', unused', listed') =
      step_at_first i hs c (k + 1) (omega arith) f (idle, unused, listed) in
    ((own ∙ sym (step_at-take i hs c (ground arith)), idle'), unused', listed')
step_at_first (suc i) (left ∷ hs) c k e f firsts = step_at_first i hs c k e f firsts

-- the counts and the signatures together
interleave-Firsts :
    (steps : List ℕ) (hs : List Handling) (c : Collection)
    → IsOnce (hs, c)
    → Firsts (hs, c)
    → IsOnce (interleave steps (hs, c)) × Firsts (interleave steps (hs, c))
unfolding interleave
interleave-Firsts [] hs c once firsts = (once, firsts)
interleave-Firsts (i ∷ steps) hs c (e, f) firsts =
    let (hs', c') = step_at i hs c in
    let (e', f') = step_at_once i hs c 0 (omega arith) f in
    interleave-Firsts steps hs' c' (omega arith, f') (step_at_first i hs c 0 (omega arith) f firsts)

-- the three stages of a payment
abbrev pub Stages : List Handling × Collection → Type 0
Stages (hs, c) =
    ((c.listed ≡ true)
      × (deciders hs ≡ 0)
      × (c.started ≡ [])
      × (length c.meta.sigs < quorum_k)
      × (c.meta.confirmed ≡ false))
    ⊎ ((c.listed ≡ true)
        × (deciders hs ≡ 1)
        × (c.started ≡ [])
        × (quorum_k ≤ length c.meta.sigs)
        × (c.meta.confirmed ≡ true))
    ⊎ ((c.listed ≡ false)
        × (deciders hs ≡ 0)
        × (c.started ≡ take quorum_k c.meta.sigs ∷ [])
        × (quorum_k ≤ length c.meta.sigs)
        × (c.meta.confirmed ≡ true))

IsOnce-Stages :
    (hs : List Handling) (c : Collection) → IsOnce (hs, c) → Firsts (hs, c) → Stages (hs, c)
IsOnce-Stages hs c (e, f) (idle, unused, listed) = by_started c.started refl
  where
    by_started : (started : List (List WitnessSignature)) → c.started ≡ started → Stages (hs, c)
    by_started [] none = elim (dec_lt (length c.meta.sigs) quorum_k) [
      | yes few ↦ inl (ground arith)
      | no enough ↦ inr (inl (ground arith))
    ]
    by_started (sigs ∷ []) one = inr (inr (ground arith))
    by_started (sigs ∷ other ∷ more) two = absurd (ground arith)

-- Whatever the order in which the handlers of signatures of one transaction make their steps, the
-- payment is at one of three stages. Either the pending table has its entry, with fewer than three
-- signatures and not marked, and nothing is started or about to be; or the table has it still,
-- marked and with three or more, while one handler is about to start the confirmation; or the entry is
-- gone, and one confirmation was started, with the three signatures that were appended first.
pub interleave-Stages :
    (tx : Transaction) (sigs : List WitnessSignature) (steps : List ℕ)
    → Stages (interleave steps (map arrived sigs, fresh tx))
interleave-Stages tx sigs steps =
    let hs = map arrived sigs in
    let (once, firsts) =
      interleave-Firsts steps hs (fresh tx) (ground (arith, deciders-arrived sigs), refl)
        (none-AreFirst [] hs (deciders-arrived sigs), tt, refl) in
    let (hs', c') = interleave steps (hs, fresh tx) in IsOnce-Stages hs' c' once firsts
