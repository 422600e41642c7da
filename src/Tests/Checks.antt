-- ===== src/Tests/Checks.antt =====
-- Building and checking a payment.
use cdml.Common.{
  ◌≡◌, ◌↔◌, refl, none, some, [], Bytes-discrete, put_uint64, uint64, copy_into, replicate, arith,
}
use cdml.Core.Errors.{ok}
use cdml.Core.Types.{Transaction, is_expired}
use cdml.Core.Amount.{safe_add, bond_amount, validate_amount}
use cdml.Crypto.Hash.{hash_tx}
use cdml.Crypto.KeyPair.{KeyPair, generate, sign, verify}
use cdml.Crypto.Sign.{sign_tx, verify_tx}
use cdml.Storage.Db
use cdml.Storage.Chain
use cdml.Storage.Keys.{bal_key, seq_key}
use cdml.Protocol.Dag.{current_tips}
use cdml.Protocol.Processor.World.{Libraries, LibraryLaws, World}
use cdml.Protocol.Processor.Build.{build_tx}
use cdml.Protocol.Processor.Verify.{VerifyPacket, verify_packet, effective_balance}
use cdml.Protocol.Processor.Check.{CanRead, Passes, verify_packet_iff}
use cdml.Protocol.Processor.Built.{Built, build_tx-Built, verify_packet-build_tx}
use cdml.Tests.Instances.{primitives, libraries, libraries_laws}
use cdml.Tests.Accounts.{alice, bob, payment, snapshot, witnesses, funded}

abbrev libs : Libraries
libs = libraries (payment bob) snapshot witnesses

laws : LibraryLaws libs
laws = libraries_laws (payment bob) snapshot witnesses

abbrev world : World libs
world = record { disk = funded; edges = [] }

abbrev keys : KeyPair
keys = record { public = alice; private = replicate 64 2 }

generated : generate primitives [] ≡ ok keys
unfolding generate copy_into
generated = refl

abbrev pkt : VerifyPacket
pkt = record { tx = payment bob; snapshot = none; known_tips = [] }

pkt-CanRead : CanRead libs 5 world pkt 0 (some 10_000)
unfolding build_tx verify_packet effective_balance Chain.get_balance Chain.get_latest_seq
    Chain.has_balance Db.get Db.read safe_add bond_amount validate_amount sign_tx hash_tx sign
    generate verify_tx verify copy_into bal_key seq_key put_uint64 uint64 Bytes-discrete
    current_tips is_expired
pkt-CanRead = record { seq_read = refl; has_read = refl; bal_read = λ bal e. ground (arith, e) }

verify_packet_iff_example :
    (verify_packet libs pkt 5 world ≡ (ok tt, world)) ↔ Passes libs 5 world pkt 0 (some 10_000)
verify_packet_iff_example = verify_packet_iff libs 5 world pkt 0 (some 10_000) pkt-CanRead

-- what alice's node builds
abbrev built : Transaction
built = record (payment bob) { nonce = 72_340_172_838_076_673; parent_hashes = []; created_at = 5 }

build_tx_run : build_tx libs keys bob 2000 (ok (replicate 8 1)) 5 world ≡ (ok built, world)
unfolding build_tx verify_packet effective_balance Chain.get_balance Chain.get_latest_seq
    Chain.has_balance Db.get Db.read safe_add bond_amount validate_amount sign_tx hash_tx sign
    generate verify_tx verify copy_into bal_key seq_key put_uint64 uint64 Bytes-discrete
    current_tips is_expired
build_tx_run = refl

build_tx-Built_example : (world ≡ world) × Built libs keys bob 2000 5 world built
build_tx-Built_example =
    build_tx-Built libs laws [] keys generated bob 2000 (ok (replicate 8 1)) 5 world world built
      build_tx_run

verify_packet-build_tx_example :
    verify_packet libs (record { tx = built; snapshot = none; known_tips = [] }) 5 world
    ≡ (ok tt, world)
verify_packet-build_tx_example =
    verify_packet-build_tx libs laws [] keys generated bob 2000 (ok (replicate 8 1)) 5 world world
      built build_tx_run none [] refl (λ s e. absurd (ground (arith, e)))
