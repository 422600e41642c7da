-- ===== src/Scripts/Cli.antt =====
-- scripts/cli/main.go: what the arguments ask for, the list of the nodes, and how an amount is
-- printed. The loader of a node's configuration is a parameter; the texts on the terminal are not
-- modelled.
pub mod Word
pub mod Amounts
pub mod Loading
pub mod Session
pub mod Reach
pub mod Answers
pub mod Terminal
pub mod Rows
pub mod Touched
use cdml.Common.{
  ℕ, zero, suc, ◌+◌, ◌-◌, ◌*◌, ◌/◌, ◌%◌, ◌^◌, ◌==◌, ◌&&◌, if◌then◌else◌, ltb, leb, Bytes,
  Bytes-discrete, ite, List, [], ◌∷◌, ◌++◌, Option, none, some,
}
use cdml.Core.Errors.{Res, ok, err, panic}
use cdml.Core.Types.{Amount}
use cdml.Scripts.Cli.Word
use cdml.Api.{parse_uint, SendTxRequest, FaucetRequest}

-- fmt.Sprintf("%d", n) of a number below 10 ^ fuel, in front of some text
unfoldable pub digits : ℕ → ℕ → Bytes → Bytes
digits zero n tail = tail
digits (suc fuel) n tail =
    let d = b'0' + n % 10 in
    let more = digits fuel (n / 10) (d ∷ tail) in if ltb n 10 then d ∷ tail else more

-- 20 digits are enough for a uint64
abbrev pub decimal : ℕ → Bytes
decimal n = digits 20 n []

-- fmt.Sprintf("%06d", n) of a number below 10 ^ 6
unfoldable pub six_digits : ℕ → Bytes
six_digits n =
    (b'0' + n / 100_000 % 10)
    ∷ (b'0' + n / 10_000 % 10)
    ∷ (b'0' + n / 1_000 % 10)
    ∷ (b'0' + n / 100 % 10)
    ∷ (b'0' + n / 10 % 10)
    ∷ (b'0' + n % 10)
    ∷ []

unfoldable pub micro_to_cdml : ℕ → Bytes
unfolding digits six_digits
micro_to_cdml micro =
    if micro % 1_000_000 == 0
    then decimal (micro / 1_000_000)
    else digits 20 (micro / 1_000_000) (b'.' ∷ six_digits (micro % 1_000_000))

-- the value of strconv.ParseUint where its error is dropped: 0 at the first byte that is no digit,
-- the largest uint64 as soon as the value exceeds it
unfoldable pub amount_of : ℕ → Bytes → ℕ
amount_of acc [] = acc
amount_of acc (c ∷ cs) =
    let next = acc * 10 + (c - b'0') in
    let rest = amount_of next cs in
    if leb b'0' c && leb c b'9' then if ltb next (2 ^ 64) then rest else 2 ^ 64 - 1 else 0

unfoldable pub parsed_amount : Bytes → ℕ
unfolding amount_of
parsed_amount [] = 0
parsed_amount (c ∷ cs) = amount_of 0 (c ∷ cs)

-- what main calls: a request, the help, or fatalf
pub data Call : Type 0 where
  show_status show_peers print_help fatal : Call
  show_balance : Bytes → Call
  post_tx : SendTxRequest → Call
  show_tx : Bytes → Bytes → Call
  post_faucet : FaucetRequest → Call

unfoldable pub send_call : List Bytes → Call
send_call (to ∷ amount ∷ _) = elim (parse_uint amount) [
  | ok n ↦ post_tx (record { to = to; amount = n })
  | _ ↦ fatal
]
send_call _ = fatal

unfoldable pub faucet_call : List Bytes → Call
unfolding parsed_amount
faucet_call [] = fatal
faucet_call (pub_key ∷ []) = post_faucet (record { pub_key = pub_key; amount = 10_000 * 1_000_000 })
faucet_call (pub_key ∷ amount ∷ _) =
    post_faucet (record { pub_key = pub_key; amount = parsed_amount amount })

abbrev with_one : (Bytes → Call) → List Bytes → Call
with_one f [] = fatal
with_one f (a ∷ _) = f a

abbrev with_two : (Bytes → Bytes → Call) → List Bytes → Call
with_two f (a ∷ b ∷ _) = f a b
with_two f _ = fatal

-- the switch of main; the address of the node is loaded before it, for every command
unfoldable pub dispatch_call : List Bytes → Call
unfolding send_call faucet_call Bytes-discrete
dispatch_call [] = print_help
dispatch_call (command ∷ args) = ite (Bytes-discrete command Word.status) show_status (
    ite (Bytes-discrete command Word.balance) (with_one show_balance args) (
      ite (Bytes-discrete command Word.send) (send_call args) (
        ite (Bytes-discrete command Word.tx) (with_two show_tx args) (
          ite (Bytes-discrete command Word.peers) show_peers
            (ite (Bytes-discrete command Word.faucet) (faucet_call args) print_help)))))

-- the loop of loadAllNodes, with `left` numbers to try from i on
unfoldable pub load_nodes : {A : Type 0} → (ℕ → Option A) → ℕ → ℕ → List (ℕ × A)
load_nodes load zero i = []
load_nodes load (suc left) i =
    let rest = load_nodes load left (suc i) in
    elim (load i) [ none ↦ [] | some cfg ↦ (i, cfg) ∷ rest ]

unfoldable pub load_all_nodes : {A : Type 0} → (ℕ → Option A) → List (ℕ × A)
unfolding load_nodes
load_all_nodes load = load_nodes load 20 1
