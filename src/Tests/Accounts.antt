-- ===== src/Tests/Accounts.antt =====
-- Keys, balances and transactions that the runs share.
use cdml.Common.{Bytes-discrete, List, [], ◌∷◌, replicate, none, some, ite, put_uint64}
use cdml.Core.Types.{PubKey, Transaction, Snapshot, Witness, pending}
use cdml.Storage.Keys.{bal_key}
use cdml.Tests.Instances.{Memory}

abbrev pub alice : PubKey
alice = replicate 32 1

abbrev pub bob : PubKey
bob = replicate 32 4

abbrev pub payment : PubKey → Transaction
payment to = record {
  hash = replicate 32 7;
  sequence = 1;
  nonce = 9;
  from = alice;
  to = to;
  amount = 2000;
  sender_sig = replicate 64 3;
  parent_hashes = replicate 32 6 ∷ [];
  witness_sigs = [];
  created_at = 0;
  status = pending;
}

abbrev pub snapshot : Snapshot
snapshot = record {
  pub_key = alice;
  sequence = 1;
  balance = 7998;
  dag_tips = [];
  created_at = 0;
  expires_at = 21_600_000_000_000;
}

abbrev pub witnesses : List Witness
witnesses = (record { pub_key = bob; addr = 5 ∷ []; added_at = 0 }) ∷ []

-- alice has 10 000 micro, bob 500
abbrev pub funded : Memory
funded k τ =
    ite (Bytes-discrete k (bal_key alice)) (some (put_uint64 10_000))
      (ite (Bytes-discrete k (bal_key bob)) (some (put_uint64 500)) none)
