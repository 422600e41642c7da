-- ===== src/Scripts/Cli/Word.antt =====
-- scripts/cli/main.go: the names of the commands.
use cdml.Common.{Bytes, [], ◌∷◌}

abbrev pub status : Bytes
status = b's' ∷ b't' ∷ b'a' ∷ b't' ∷ b'u' ∷ b's' ∷ []

abbrev pub balance : Bytes
balance = b'b' ∷ b'a' ∷ b'l' ∷ b'a' ∷ b'n' ∷ b'c' ∷ b'e' ∷ []

abbrev pub send : Bytes
send = b's' ∷ b'e' ∷ b'n' ∷ b'd' ∷ []

abbrev pub tx : Bytes
tx = b't' ∷ b'x' ∷ []

abbrev pub peers : Bytes
peers = b'p' ∷ b'e' ∷ b'e' ∷ b'r' ∷ b's' ∷ []

abbrev pub faucet : Bytes
faucet = b'f' ∷ b'a' ∷ b'u' ∷ b'c' ∷ b'e' ∷ b't' ∷ []

-- "/node", between the directory and the number of a node
abbrev pub slash_node : Bytes
slash_node = b'/' ∷ b'n' ∷ b'o' ∷ b'd' ∷ b'e' ∷ []

-- "/config.json"
abbrev pub slash_config : Bytes
slash_config =
    b'/' ∷ b'c' ∷ b'o' ∷ b'n' ∷ b'f' ∷ b'i' ∷ b'g' ∷ b'.' ∷ b'j' ∷ b's' ∷ b'o' ∷ b'n' ∷ []
