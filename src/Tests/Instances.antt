-- ===== src/Tests/Instances.antt =====
-- A database in memory, a JSON codec of one value, and signatures that always verify: stand-ins that
-- satisfy the laws assumed of the libraries.
use cdml.Common.{
  ℕ, Bool, false, sym, ◌∙◌, Bytes, Bytes-discrete, ℕ_discrete, ite, true, List, [], ◌∷◌, replicate,
  Option, none, some, if◌then◌else◌, ◌≡◌, refl, arith, ap, inl, inr,
}
use cdml.Core.Errors.{Res, Res-cases, ok, err, panic, key_not_found, failure}
use cdml.Core.Types.{Transaction, TxStatus, Snapshot, Witness}
use cdml.Json.{Json, JsonLaws}
use cdml.Crypto.Primitives.{Primitives, PrimitivesLaws}
use cdml.Storage.Badger.{Badger, BadgerLaws, is_live}
use cdml.Protocol.Processor.Success.{IsHealthy}
use cdml.Protocol.Processor.World.{Libraries, LibraryLaws}

-- what each key shows at each instant
abbrev pub Memory : Type 0
Memory = Bytes → ℕ → Option Bytes

abbrev pub nothing_stored : Memory
nothing_stored _ _ = none

abbrev entry : Option Bytes → Res Bytes
entry (some v) = ok v
entry none = err key_not_found

abbrev look_up : Memory → ℕ → Bytes → Res Bytes
look_up m τ k = entry (m k τ)

abbrev commit : (Memory → Res Memory) → Memory → Res (Unit {0}) × Memory
commit f m = elim (f m) [ ok n ↦ (ok tt, n) | err e ↦ (err e, m) | panic ↦ (panic, m) ]

abbrev pub in_memory : Badger
in_memory = record {
  Disk = Memory;
  Txn = Memory;
  begin = λ m. m;
  peek = look_up;
  set = λ k v m. ok (λ j τ. ite (Bytes-discrete j k) (some v) (m j τ));
  set_entry = λ now k v ttl m.
      ok (λ j τ. ite (Bytes-discrete j k) (if is_live now ttl τ then some v else none) (m j τ));
  delete = λ k m. ok (λ j τ. ite (Bytes-discrete j k) none (m j τ));
  update = commit;
}

entry-ite :
    {P : Type 0} (d : Dec P) (o old : Option Bytes)
    → entry (ite d o old) ≡ ite d (entry o) (entry old)
entry-ite (yes _) o old = refl
entry-ite (no _) o old = refl

entry-if :
    (x : Bool) (v : Bytes)
    → entry (if x then some v else none) ≡ (if x then ok v else err key_not_found)
entry-if true v = refl
entry-if false v = refl

-- what the result of a write shows
abbrev shown : Bytes → ℕ → Res Memory → Res Bytes
shown j τ r = elim r [ ok m ↦ look_up m τ j | err e ↦ err e | panic ↦ panic ]

pub in_memory_laws : BadgerLaws in_memory
unfolding Bytes-discrete
in_memory_laws = record {
  peek-set =
      λ k v j τ t t' h. sym (ap (shown j τ) h) ∙ entry-ite (Bytes-discrete j k) (some v) (t j τ);
  peek-set_entry = λ now k v ttl j τ t t' h.
      sym (ap (shown j τ) h)
      ∙ entry-ite (Bytes-discrete j k) (if is_live now ttl τ then some v else none) (t j τ)
      ∙ rw (entry-if (is_live now ttl τ) v);
  peek-delete =
      λ k j τ t t' h. sym (ap (shown j τ) h) ∙ entry-ite (Bytes-discrete j k) none (t j τ);
  update_commits = λ f d d' h. elim (Res-cases (f d)) [
    | inl (t, r) ↦ (t, r, λ τ j. ground (arith, ap (λ x. look_up x.1 τ j) h))
    | inr (inl (e, r)) ↦ absurd (ground arith)
    | inr (inr r) ↦ absurd (ground arith)
  ];
  update_fails = λ f d d' e h τ j. ground arith;
  peek_calm = λ t τ j h. ground arith;
  update_calm = λ f d calm h. ground (arith, calm d);
  set_calm = λ k v t h. cc;
  set_entry_calm = λ now k v ttl t h. cc;
  delete_calm = λ k t h. cc;
}

abbrev pub primitives : Primitives
primitives = record {
  blake2b_256 = λ bs. replicate 32 7;
  generate_key = λ r. ok (replicate 32 1, replicate 64 2);
  public_of = λ k. replicate 32 1;
  ed25519_sign = λ k m. replicate 64 3;
  ed25519_verify = λ k m s. true;
}

pub primitives_laws : PrimitivesLaws primitives
primitives_laws = record {
  length-blake2b_256 = λ bs. refl;
  length-ed25519_sign = λ k m. refl;
  length_generated = λ r k priv h. ground arith;
  verify-sign = λ r k priv m h. refl;
}

-- encodes the one given value, and nothing else
abbrev pub codec : {A : Type 0} → Discrete A → A → Json A
codec same sample = record {
  marshal = λ a. ite (same a sample) (ok (5 ∷ [])) (err (failure 9));
  unmarshal = λ bs. ite (Bytes-discrete bs (5 ∷ [])) (ok sample) (err (failure 8));
}

pub codec_laws : {A : Type 0} (same : Discrete A) (sample : A) → JsonLaws (codec same sample)
unfolding Bytes-discrete
codec_laws same sample = record {
  unmarshal-marshal =
      λ a bs h. elim (same a sample) [ yes e ↦ ground arith | no n ↦ absurd (ground arith) ];
  marshal_calm = λ a h. ground arith;
  unmarshal_calm = λ bs h. ground arith;
}

unfoldable pub Bool-discrete : Discrete Bool
Bool-discrete = hlevel ℕ_discrete

unfoldable pub TxStatus-discrete : Discrete TxStatus
TxStatus-discrete = hlevel ℕ_discrete

unfoldable pub Transaction-discrete : Discrete Transaction
unfolding ℕ_discrete
Transaction-discrete = hlevel ℕ_discrete

unfoldable pub Snapshot-discrete : Discrete Snapshot
unfolding ℕ_discrete
Snapshot-discrete = hlevel ℕ_discrete

unfoldable pub Witnesses-discrete : Discrete (List Witness)
unfolding ℕ_discrete
Witnesses-discrete = hlevel ℕ_discrete

-- the libraries of a node whose codecs encode these values
abbrev pub libraries : Transaction → Snapshot → List Witness → Libraries
libraries tx snap ws = record {
  badger = in_memory;
  primitives = primitives;
  tx_json = codec Transaction-discrete tx;
  snapshot_json = codec Snapshot-discrete snap;
  witness_json = codec Witnesses-discrete ws;
}

pub libraries_laws :
    (tx : Transaction) (snap : Snapshot) (ws : List Witness) → LibraryLaws (libraries tx snap ws)
libraries_laws tx snap ws = record {
  badger_laws = in_memory_laws;
  primitives_laws = primitives_laws;
  tx_json_laws = codec_laws Transaction-discrete tx;
  snapshot_json_laws = codec_laws Snapshot-discrete snap;
  witness_json_laws = codec_laws Witnesses-discrete ws;
}

-- every write to the database in memory succeeds
pub in_memory-IsHealthy : IsHealthy in_memory
in_memory-IsHealthy = record {
  set_succeeds = λ k v t. (_, refl);
  update_succeeds = λ f d t h. ground (arith, h);
}
