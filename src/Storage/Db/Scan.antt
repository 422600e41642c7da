-- ===== src/Storage/Db/Scan.antt =====
-- internal/storage/db.go: HasPrefix and ScanPrefix. The iterators of the database are a parameter, with
-- their documented behaviour as a record of laws: the entries come in the byte order of their keys.
pub mod Ordered
use cdml.Common.{
  ℕ, zero, suc, ltb, ◌==◌, ◌&&◌, if◌then◌else◌, Bool, true, false, Bytes, length, List, [], ◌∷◌,
  ◌++◌, ◌≡◌, refl, sym, ◌∙◌, arith, inl, inr,
}
use cdml.Core.Errors.{Res, ok, err, panic, Res-cases}
use cdml.Exec.{Exec}
use cdml.Storage.Badger.{Badger}

-- bytes.HasPrefix
abbrev pub starts_with : Bytes → Bytes → Bool
starts_with [] key = true
starts_with (p ∷ ps) [] = false
starts_with (p ∷ ps) (k ∷ ks) = (p == k) && starts_with ps ks

-- the byte order of keys
abbrev pub below : Bytes → Bytes → Bool
below key [] = false
below [] (b ∷ bs) = true
below (a ∷ as') (b ∷ bs) =
    let rest = below as' bs in if ltb a b then true else if ltb b a then false else rest

abbrev pub Entries : Type 0
Entries = List (Bytes × Res Bytes)

-- in ascending order of the keys
abbrev pub is_ascending : Entries → Bool
is_ascending [] = true
is_ascending (_ ∷ []) = true
is_ascending ((k, _) ∷ (l, v) ∷ es) = below k l && is_ascending ((l, v) ∷ es)

-- the entries from the first whose key is not below the prefix
abbrev pub from_key : Bytes → Entries → Entries
from_key prefix [] = []
from_key prefix ((k, v) ∷ es) =
    let rest = from_key prefix es in if below k prefix then rest else (k, v) ∷ es

abbrev pub first_starts : Bytes → Entries → Bool
first_starts prefix [] = false
first_starts prefix ((k, _) ∷ _) = starts_with prefix k

module _ (b : Badger) where
  open b use {Disk, Txn, begin}

  pub record Iterators : Type 1 where
    pub Iterator : Type 0
    pub new_iterator : Txn → ℕ → Iterator
    pub seek : Bytes → Iterator → Iterator
    pub valid_for_prefix : Bytes → Iterator → Bool
    pub next : Iterator → Iterator
    pub value_copy : Iterator → Res Bytes

  module _ (its : Iterators) where
    open its use {Iterator, new_iterator, seek, valid_for_prefix, next, value_copy}

    unfoldable pub has_prefix : Bytes → Exec Disk Bool
    has_prefix prefix now d =
        (ok (valid_for_prefix prefix (seek prefix (new_iterator (begin d) now))), d)

    -- the loop of ScanPrefix, of at most `rounds` rounds, with the values so far; the error comes with
    -- the values before it
    unfoldable pub scan_loop : ℕ → Bytes → Iterator → List Bytes → Res (Unit {0}) × List Bytes
    scan_loop zero prefix it vals = (ok tt, vals)
    scan_loop (suc rounds) prefix it vals = elim (valid_for_prefix prefix it) [
      | false ↦ (ok tt, vals)
      | true ↦ elim (value_copy it) [
        | ok v ↦ scan_loop rounds prefix (next it) (vals ++ v ∷ [])
        | err e ↦ (err e, vals)
        | panic ↦ (panic, vals)
      ]
    ]

    unfoldable pub scan_prefix : ℕ → Bytes → ℕ → Disk → (Res (Unit {0}) × List Bytes) × Disk
    unfolding scan_loop
    scan_prefix rounds prefix now d =
        (scan_loop rounds prefix (seek prefix (new_iterator (begin d) now)) [], d)

    -- what an iterator still has to give
    pub record IteratorLaws : Type 0 where
      pub ahead : Iterator → Entries
      pub new_ascending : (t : Txn) (now : ℕ) → is_ascending (ahead (new_iterator t now)) ≡ true
      pub ahead-seek :
          (prefix : Bytes) (t : Txn) (now : ℕ)
          → ahead (seek prefix (new_iterator t now)) ≡ from_key prefix (ahead (new_iterator t now))
      pub valid-first :
          (prefix : Bytes) (it : Iterator)
          → valid_for_prefix prefix it ≡ first_starts prefix (ahead it)
      pub ahead-next :
          (it : Iterator) (e : Bytes × Res Bytes) (es : Entries)
          → ahead it ≡ e ∷ es
          → (ahead (next it) ≡ es) × (value_copy it ≡ e.1)
