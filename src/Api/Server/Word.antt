-- ===== src/Api/Server/Word.antt =====
-- api/server.go: the segments of the paths that NewServer registers.
use cdml.Common.{Bytes, [], ◌∷◌}

abbrev pub v1 : Bytes
v1 = b'v' ∷ b'1' ∷ []

abbrev pub healthz : Bytes
healthz = b'h' ∷ b'e' ∷ b'a' ∷ b'l' ∷ b't' ∷ b'h' ∷ b'z' ∷ []

abbrev pub status : Bytes
status = b's' ∷ b't' ∷ b'a' ∷ b't' ∷ b'u' ∷ b's' ∷ []

abbrev pub balance : Bytes
balance = b'b' ∷ b'a' ∷ b'l' ∷ b'a' ∷ b'n' ∷ b'c' ∷ b'e' ∷ []

abbrev pub tx : Bytes
tx = b't' ∷ b'x' ∷ []

abbrev pub peers : Bytes
peers = b'p' ∷ b'e' ∷ b'e' ∷ b'r' ∷ b's' ∷ []

abbrev pub witness : Bytes
witness = b'w' ∷ b'i' ∷ b't' ∷ b'n' ∷ b'e' ∷ b's' ∷ b's' ∷ []

abbrev pub active : Bytes
active = b'a' ∷ b'c' ∷ b't' ∷ b'i' ∷ b'v' ∷ b'e' ∷ []

abbrev pub register : Bytes
register = b'r' ∷ b'e' ∷ b'g' ∷ b'i' ∷ b's' ∷ b't' ∷ b'e' ∷ b'r' ∷ []

abbrev pub snapshot : Bytes
snapshot = b's' ∷ b'n' ∷ b'a' ∷ b'p' ∷ b's' ∷ b'h' ∷ b'o' ∷ b't' ∷ []

abbrev pub faucet : Bytes
faucet = b'f' ∷ b'a' ∷ b'u' ∷ b'c' ∷ b'e' ∷ b't' ∷ []

-- the segments that a path is cleaned of
abbrev pub dot : Bytes
dot = b'.' ∷ []

abbrev pub dot_dot : Bytes
dot_dot = b'.' ∷ b'.' ∷ []
