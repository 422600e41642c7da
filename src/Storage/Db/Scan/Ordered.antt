-- ===== src/Storage/Db/Scan/Ordered.antt =====
-- A scan of a prefix finds the entries whose keys start with it.
use cdml.Common.{
  ℕ, zero, suc, ◌<◌, ◌≤◌, ltb, if◌then◌else◌, true, false, Bool-cases, Bytes, length, List, [], ◌∷◌,
  ◌++◌, ◌≡◌, refl, ◌∙◌, ap, arith, inl, inr,
}
use cdml.Core.Errors.{Res, ok, err, panic}
use cdml.Storage.Badger.{Badger}
use cdml.Storage.Db.Scan.{
  starts_with, below, Entries, is_ascending, from_key, first_starts, Iterators, IteratorLaws,
  has_prefix, scan_loop, scan_prefix,
}

-- between a prefix and a key that starts with it, every key starts with it
starts_with_between :
    (prefix k l : Bytes)
    → below k prefix ≡ false
    → below k l ≡ true
    → starts_with prefix l ≡ true
    → starts_with prefix k ≡ true
starts_with_between [] k l h below_l s = refl
starts_with_between (p ∷ ps) [] l h below_l s = cc
starts_with_between (p ∷ ps) (k ∷ ks) [] h below_l s = cc
starts_with_between (p ∷ ps) (k ∷ ks) (l ∷ ls) h below_l s =
    ground (arith, starts_with_between ps ks ls)

below_trans : (a b c : Bytes) → below a b ≡ true → below b c ≡ true → below a c ≡ true
below_trans a [] c h g = cc
below_trans a (x ∷ b) [] h g = cc
below_trans [] (x ∷ b) (z ∷ c) h g = refl
below_trans (w ∷ a) (x ∷ b) (z ∷ c) h g = ground (arith, below_trans a b c)

below-starts_with : (prefix k : Bytes) → below k prefix ≡ true → starts_with prefix k ≡ false
below-starts_with [] k h = cc
below-starts_with (p ∷ ps) [] h = refl
below-starts_with (p ∷ ps) (k ∷ ks) h = ground (arith, below-starts_with ps ks)

-- the entries whose keys start with the prefix
abbrev pub matching : Bytes → Entries → Entries
matching prefix [] = []
matching prefix ((k, v) ∷ es) =
    let rest = matching prefix es in if starts_with prefix k then (k, v) ∷ rest else rest

-- those in front
abbrev leading : Bytes → Entries → Entries
leading prefix [] = []
leading prefix ((k, v) ∷ es) =
    let rest = leading prefix es in if starts_with prefix k then (k, v) ∷ rest else []

is_ascending_tail :
    (k : Bytes) (v : Res Bytes) (es : Entries)
    → is_ascending ((k, v) ∷ es) ≡ true
    → is_ascending es ≡ true
is_ascending_tail k v [] h = refl
is_ascending_tail k v ((l, w) ∷ es) h = ground arith

-- behind a key that does not start with the prefix and is not below it, no key does
none_matching :
    (prefix k : Bytes) (v : Res Bytes) (es : Entries)
    → is_ascending ((k, v) ∷ es) ≡ true
    → below k prefix ≡ false
    → starts_with prefix k ≡ false
    → matching prefix es ≡ []
none_matching prefix k v [] asc h s = refl
none_matching prefix k v ((l, w) ∷ es) asc h s =
    let above : below k l ≡ true = ground arith in
    let rest : is_ascending ((l, w) ∷ es) ≡ true = ground arith in
    ground (
      arith,
      starts_with_between prefix k l,
      below_trans k l prefix,
      none_matching prefix l w es rest,
    )

leading-matching :
    (prefix k : Bytes) (v : Res Bytes) (es : Entries)
    → is_ascending ((k, v) ∷ es) ≡ true
    → below k prefix ≡ false
    → leading prefix ((k, v) ∷ es) ≡ matching prefix ((k, v) ∷ es)
leading-matching prefix k v [] asc high = ground arith
leading-matching prefix k v ((l, w) ∷ es) asc high =
    let above : below k l ≡ true = ground arith in
    let rest : is_ascending ((l, w) ∷ es) ≡ true = ground arith in
    ground (
      arith,
      below_trans k l prefix,
      none_matching prefix k v ((l, w) ∷ es) asc high,
      leading-matching prefix l w es rest,
    )

leading-from_key :
    (prefix : Bytes) (es : Entries)
    → is_ascending es ≡ true
    → leading prefix (from_key prefix es) ≡ matching prefix es
leading-from_key prefix [] asc = refl
leading-from_key prefix ((k, v) ∷ es) asc = elim (Bool-cases (below k prefix)) [
  | inl low ↦ ground (
    arith,
    below-starts_with prefix k low,
    leading-from_key prefix es (is_ascending_tail k v es asc),
  )
  | inr high ↦ ground (arith, leading-matching prefix k v es asc high)
]

-- the values, up to the first that cannot be read
abbrev pub read_all : Entries → List Bytes → Res (Unit {0}) × List Bytes
read_all [] vals = (ok tt, vals)
read_all ((k, ok v) ∷ es) vals = read_all es (vals ++ v ∷ [])
read_all ((k, err e) ∷ es) vals = (err e, vals)
read_all ((k, panic) ∷ es) vals = (panic, vals)

first-leading :
    (prefix : Bytes) (es : Entries) → first_starts prefix es ≡ ltb 0 (length (leading prefix es))
first-leading prefix [] = refl
first-leading prefix ((k, v) ∷ es) = ground arith

length-from_key : (prefix : Bytes) (es : Entries) → length (from_key prefix es) ≤ length es
length-from_key prefix [] = omega arith
length-from_key prefix ((k, v) ∷ es) = ground (arith, length-from_key prefix es)

module _ (b : Badger) (its : Iterators b) (laws : IteratorLaws b its) where
  open b use {Disk, begin}
  open its use {Iterator, new_iterator, seek}
  open laws use {ahead}

  scan_loop-leading :
      (es : Entries) (rounds : ℕ) (prefix : Bytes) (it : Iterator) (vals : List Bytes)
      → ahead it ≡ es
      → length es < rounds
      → scan_loop b its rounds prefix it vals ≡ read_all (leading prefix es) vals
  unfolding scan_loop
  scan_loop-leading es zero prefix it vals at enough = absurd (omega arith)
  scan_loop-leading [] (suc rounds) prefix it vals at enough =
      ground (arith, laws.valid-first prefix it)
  scan_loop-leading ((k, ok v) ∷ es) (suc rounds) prefix it vals at enough =
      let (rest, value) = laws.ahead-next it (k, ok v) es at in
      ground (
        arith,
        laws.valid-first prefix it,
        scan_loop-leading es rounds prefix (its.next it) (vals ++ v ∷ []) rest (omega arith),
      )
  scan_loop-leading ((k, err e) ∷ es) (suc rounds) prefix it vals at enough =
      let (rest, value) = laws.ahead-next it (k, err e) es at in
      ground (arith, laws.valid-first prefix it)
  scan_loop-leading ((k, panic) ∷ es) (suc rounds) prefix it vals at enough =
      let (rest, value) = laws.ahead-next it (k, panic) es at in
      ground (arith, laws.valid-first prefix it)

  -- ScanPrefix, with a round for each entry and one more, returns the values of exactly the entries
  -- whose keys start with the prefix, in the order of the keys, up to the first that cannot be read;
  -- its error is the one of that entry.
  pub scan_prefix-matching :
      (rounds now : ℕ) (prefix : Bytes) (d : Disk)
      → length (ahead (new_iterator (begin d) now)) < rounds
      → scan_prefix b its rounds prefix now d
        ≡ (read_all (matching prefix (ahead (new_iterator (begin d) now))) [], d)
  unfolding scan_prefix
  scan_prefix-matching rounds now prefix d enough =
      let es = ahead (new_iterator (begin d) now) in
      let loop =
        scan_loop-leading (from_key prefix es) rounds prefix
          (seek prefix (new_iterator (begin d) now)) [] (laws.ahead-seek prefix (begin d) now)
          (omega (arith, length-from_key prefix es)) in
      let found = leading-from_key prefix es (laws.new_ascending (begin d) now) in
      λ i. ((loop ∙ ap (λ x. read_all x []) found) i, d)

  -- HasPrefix answers whether there is an entry whose key starts with the prefix.
  pub has_prefix-matching :
      (now : ℕ) (prefix : Bytes) (d : Disk)
      → has_prefix b its prefix now d
        ≡ (ok (ltb 0 (length (matching prefix (ahead (new_iterator (begin d) now))))), d)
  unfolding has_prefix
  has_prefix-matching now prefix d =
      let es = ahead (new_iterator (begin d) now) in
      let found = leading-from_key prefix es (laws.new_ascending (begin d) now) in
      let it = seek prefix (new_iterator (begin d) now) in
      let valid = laws.valid-first prefix it in
      let seen = laws.ahead-seek prefix (begin d) now in
      let first = first-leading prefix (from_key prefix es) in
      let answer =
        valid
        ∙ ap (first_starts prefix) seen
        ∙ first
        ∙ ap (λ (x : Entries). ltb 0 (length x)) found in
      λ i. (ok (answer i), d)
