-- ===== src/Tests/Clients.antt =====
-- What the command line client prints and finds, and the seeds of a local network.
use cdml.Common.{ℕ, ◌==◌, if◌then◌else◌, Bytes, [], ◌∷◌, Option, none, some, ◌≡◌, refl}
use cdml.Scripts.Cli.{micro_to_cdml, load_all_nodes, parsed_amount}

-- "1.500000"
printed : micro_to_cdml 1_500_000 ≡ b'1' ∷ b'.' ∷ b'5' ∷ b'0' ∷ b'0' ∷ b'0' ∷ b'0' ∷ b'0' ∷ []
unfolding micro_to_cdml
printed = refl

-- "1O": the letter for a zero
abbrev typo : Bytes
typo = b'1' ∷ b'O' ∷ []

typo_run : parsed_amount typo ≡ 0
unfolding parsed_amount
typo_run = refl

-- the nodes 1 and 2 are configured, and so is 4
abbrev configs : ℕ → Option Bytes
configs i =
    if i == 1
    then some (b'a' ∷ [])
    else if i == 2
    then some (b'b' ∷ [])
    else if i == 4
    then some (b'd' ∷ [])
    else none

loaded : load_all_nodes configs ≡ (1, b'a' ∷ []) ∷ (2, b'b' ∷ []) ∷ []
unfolding load_all_nodes
loaded = refl
