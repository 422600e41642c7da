-- ===== src/Daemon/Restart.antt =====
-- The daemon that starts again.
use cdml.Common.{
  ap, sym, ◌∙◌, Bytes, [], ◌∷◌, ◌++◌, map, true, false, ◌==◌, length, Bool-cases, ◌≡◌, arith, inl,
  inr,
}
use cdml.Core.Errors.{ok, Res-cases}
use cdml.Crypto.Primitives.{Primitives, PrimitivesLaws}
use cdml.Crypto.KeyPair.{KeyPair}
use cdml.Protocol.Processor.World.{LibraryLaws}
use cdml.Node.Config.{Config, KeyFile, KeyFileLaws, load_config, load_or_create_key}
use cdml.Node.Config.Restart.{load_or_create_key_again}
use cdml.Node.State.{NodeLibraries, new}
use cdml.Node.Start.{start_node, new_node, accepting, connecting_to, serving_api}
use cdml.Daemon.Shutdown.{shut_down-any_open}
use cdml.Node.Mutex.{returns}
use cdml.Daemon.{Process, Machine, running, start_all, boot, shut_down}

-- The second start finds the key of the first, whether that has read or created it.
load_or_create_key_twice :
    (p : Primitives) (laws : PrimitivesLaws p) (file : KeyFile) (kept : KeyFileLaws file)
    (random later : Bytes) (kp : KeyPair) (s s' : file.Fs)
    → load_or_create_key file p random s ≡ (ok kp, s')
    → load_or_create_key file p later s' ≡ (ok kp, s')
unfolding load_or_create_key
load_or_create_key_twice p laws file kept random later kp s s' h =
    elim (Res-cases (file.read_file s)) [
      | inl (bs, e) ↦ elim (Bool-cases (length bs == 64)) [
        | inl fits ↦ ground arith
        | inr not_fit ↦
            load_or_create_key_again p laws file kept random later kp s s' (ground arith)
      ]
      | inr (inl (x, e)) ↦
          load_or_create_key_again p laws file kept random later kp s s' (ground arith)
      | inr (inr e) ↦ absurd (ground arith)
    ]

module _ (lib : NodeLibraries) (file : KeyFile) where
  open lib use {libs}

  -- the process that a start with a key and a database makes
  abbrev pub fresh_process : Config → KeyPair → libs.badger.Disk → Process lib
  fresh_process cfg kp disk = record {
    cfg = cfg;
    kp = kp;
    node = new lib disk;
    goroutines = (accepting ∷ map connecting_to cfg.seed_peers) ++ serving_api cfg.api_addr ∷ [];
    listening = true;
    api_up = true;
    db_open = true;
  }

  boot-fresh :
      (m : Machine lib) (cfg : Config) (kp : KeyPair) (disk : libs.badger.Disk) (fs fs' : file.Fs)
      → load_config m.config_json m.config_file ≡ ok cfg
      → load_or_create_key file libs.primitives m.random fs ≡ (ok kp, fs')
      → m.badger_open cfg.db_path false ≡ ok disk
      → m.listen cfg.p2p_addr ≡ ok tt
      → boot lib file m fs ≡ (running (fresh_process cfg kp disk), fs')
  unfolding boot start_all start_node new_node
  boot-fresh m cfg kp disk fs fs' configured key opened listens = ground arith

  started :
      (m : Machine lib) (p : Process lib) (fs fs' : file.Fs)
      → boot lib file m fs ≡ (running p, fs')
      → (disk : libs.badger.Disk) × (p ≡ fresh_process p.cfg p.kp disk)
        × (load_or_create_key file libs.primitives m.random fs ≡ (ok p.kp, fs'))
  unfolding boot start_all start_node new_node
  started m p fs fs' h = elim (Res-cases (load_config m.config_json m.config_file)) [
    | inl (cfg, e1) ↦
        let (r, fs1) = load_or_create_key file libs.primitives m.random fs in
        elim (Res-cases r) [
          | inl (kp, e2) ↦ elim (Res-cases (m.badger_open cfg.db_path false)) [
            | inl (disk, e3) ↦ elim (Res-cases (m.listen cfg.p2p_addr)) [
              | inl (_, e4) ↦
                  let made : (p ≡ fresh_process cfg kp disk) × (fs1 ≡ fs') = ground arith in
                  let same_cfg = ap (λ (q : Process lib). q.cfg) made.0 in
                  let same_kp = ap (λ (q : Process lib). q.kp) made.0 in
                  (
                    disk,
                    made.0 ∙ (λ i. fresh_process (sym same_cfg i) (sym same_kp i) disk),
                    ground (arith, same_kp),
                  )
              | inr (inl (x, e4)) ↦ absurd (ground arith)
              | inr (inr e4) ↦ absurd (ground arith)
            ]
            | inr (inl (x, e3)) ↦ absurd (ground arith)
            | inr (inr e3) ↦ absurd (ground arith)
          ]
          | inr (inl (x, e2)) ↦ absurd (ground arith)
          | inr (inr e2) ↦ absurd (ground arith)
        ]
    | inr (inl (x, e1)) ↦ absurd (ground arith)
    | inr (inr e1) ↦ absurd (ground arith)
  ]

  -- A daemon that is stopped before any peer has connected ends.
  boot-shut_down :
      (m : Machine lib) (p : Process lib) (fs fs' : file.Fs)
      → boot lib file m fs ≡ (running p, fs')
      → shut_down p ≡ returns (record p { api_up = false; listening = false; db_open = false })
  boot-shut_down m p fs fs' h =
      let (disk, made, _) = started m p fs fs' h in ground (arith, shut_down-any_open lib p)

  module _ (laws : LibraryLaws libs) (kept : KeyFileLaws file) where
    -- A daemon that has started, and is started again with the same configuration and on the key file
    -- that the first start has left, whatever random bytes it would get now: where its database and its
    -- listener open, it has the same key pair, the database, a goroutine that accepts, one for each seed
    -- and one for the API, and a node that knows no peer, no pending transaction, no message and no edge
    -- of the DAG. The key file stays as it is.
    pub boot_again :
        (m later : Machine lib) (p : Process lib) (fs fs' : file.Fs) (disk : libs.badger.Disk)
        → boot lib file m fs ≡ (running p, fs')
        → load_config later.config_json later.config_file ≡ ok p.cfg
        → later.badger_open p.cfg.db_path false ≡ ok disk
        → later.listen p.cfg.p2p_addr ≡ ok tt
        → boot lib file later fs' ≡ (running (fresh_process p.cfg p.kp disk), fs')
    boot_again m later p fs fs' disk first configured opened listens =
        let (_, _, key) = started m p fs fs' first in
        boot-fresh later p.cfg p.kp disk fs' fs' configured
          (load_or_create_key_twice libs.primitives laws.primitives_laws file kept m.random
            later.random p.kp fs fs' key)
          opened listens
