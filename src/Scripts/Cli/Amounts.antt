-- ===== src/Scripts/Cli/Amounts.antt =====
-- How the client prints and reads amounts.
use cdml.Common.{
  ℕ, zero, suc, ◌+◌, ◌-◌, ◌*◌, ◌/◌, ◌%◌, ◌^◌, ◌<◌, ◌≤◌, ◌==◌, ◌&&◌, if◌then◌else◌, leb, length,
  Bytes, [], ◌∷◌, Option, none, some, ◌≡◌, ◌≢◌, ◌⊎◌, inl, inr, refl, ◌∙◌, ap, Bool-cases, arith,
}
use cdml.Core.Errors.{ok}
use cdml.Api.{digits_value, parse_uint}
use cdml.Scripts.Cli.{digits, decimal, six_digits, micro_to_cdml, amount_of, parsed_amount}

-- an amount of coins in decimal, with no point or with six digits after it, in millionths of a coin
unfoldable pub read_coins : ℕ → Bytes → Option ℕ
read_coins acc [] = some (acc * 1_000_000)
read_coins acc (c ∷ cs) =
    let rest = read_coins (acc * 10 + (c - b'0')) cs in
    if c == b'.'
    then if length cs == 6 then digits_value acc cs else none
    else if leb b'0' c && leb c b'9'
    then rest
    else none

read_coins-digits :
    (fuel n : ℕ) (tail : Bytes)
    → n < 10 ^ fuel
    → read_coins 0 (digits fuel n tail) ≡ read_coins n tail
unfolding read_coins digits
read_coins-digits zero n tail h = ground arith
read_coins-digits (suc fuel) n tail h =
    ground (arith, read_coins-digits fuel (n / 10) ((b'0' + n % 10) ∷ tail))

digits_value-digits :
    (fuel n : ℕ) (tail : Bytes)
    → n < 10 ^ fuel
    → digits_value 0 (digits fuel n tail) ≡ digits_value n tail
unfolding digits_value digits
digits_value-digits zero n tail h = ground arith
digits_value-digits (suc fuel) n tail h =
    ground (arith, digits_value-digits fuel (n / 10) ((b'0' + n % 10) ∷ tail))

digits_value-digit :
    (acc n : ℕ) (cs : Bytes)
    → digits_value acc ((b'0' + n % 10) ∷ cs) ≡ digits_value (acc * 10 + n % 10) cs
unfolding digits_value
digits_value-digit acc n cs = ground arith

digits_value-nil : (acc n : ℕ) → acc ≡ n → digits_value acc [] ≡ some n
unfolding digits_value
digits_value-nil acc n e = ap some e

six_digits_value :
    (acc n : ℕ) → n < 1_000_000 → digits_value acc (six_digits n) ≡ some (acc * 1_000_000 + n)
unfolding six_digits
six_digits_value acc n small =
    digits_value-digit acc (n / 100_000) _
    ∙ digits_value-digit _ (n / 10_000) _
    ∙ digits_value-digit _ (n / 1_000) _
    ∙ digits_value-digit _ (n / 100) _
    ∙ digits_value-digit _ (n / 10) _
    ∙ digits_value-digit _ n []
    ∙ digits_value-nil _ (acc * 1_000_000 + n) (omega arith)

read_coins-fraction :
    (acc n : ℕ) → n < 1_000_000 → read_coins acc (b'.' ∷ six_digits n) ≡ some (acc * 1_000_000 + n)
unfolding read_coins six_digits
read_coins-fraction acc n small = ground (arith, six_digits_value acc n small)

read_coins-nil : (acc n : ℕ) → acc * 1_000_000 ≡ n → read_coins acc [] ≡ some n
unfolding read_coins
read_coins-nil acc n e = ap some e

-- What the client prints for an amount is read back as exactly that amount: no coin is rounded.
pub read_coins-micro_to_cdml :
    (micro : ℕ) → micro < 2 ^ 64 → read_coins 0 (micro_to_cdml micro) ≡ some micro
unfolding micro_to_cdml
read_coins-micro_to_cdml micro fits =
    let whole = micro / 1_000_000 in
    let part = micro % 1_000_000 in
    let small : whole < 10 ^ 20 = omega arith in
    let split : whole * 1_000_000 + part ≡ micro = omega arith in
    elim (Bool-cases (part == 0)) [
      | inl round ↦
          rw (round)
            (read_coins-digits 20 whole [] small ∙ read_coins-nil whole micro (ground arith))
      | inr broken ↦ rw (broken) (
          read_coins-digits 20 whole (b'.' ∷ six_digits part) small
          ∙ read_coins-fraction whole part (omega arith)
          ∙ ap some split)
    ]

digits-nonempty : (fuel n d : ℕ) (tail : Bytes) → digits fuel n (d ∷ tail) ≢ []
unfolding digits
digits-nonempty zero n d tail h = ground arith
digits-nonempty (suc fuel) n d tail h =
    ground (arith, digits-nonempty fuel (n / 10) (b'0' + n % 10) (d ∷ tail))

parse_uint-of_value :
    (bs : Bytes) (n : ℕ) → bs ≢ [] → digits_value 0 bs ≡ some n → n < 2 ^ 64 → parse_uint bs ≡ ok n
unfolding parse_uint
parse_uint-of_value [] n some_there h fits = absurd (some_there refl)
parse_uint-of_value (c ∷ cs) n some_there h fits = ground arith

-- A number that is printed in decimal is parsed as that number.
pub parse_uint-decimal : (n : ℕ) → n < 2 ^ 64 → parse_uint (decimal n) ≡ ok n
unfolding digits digits_value
parse_uint-decimal n fits =
    parse_uint-of_value (decimal n) n
      (λ e. ground (arith, digits-nonempty 19 (n / 10) (b'0' + n % 10) []))
      (digits_value-digits 20 n [] (omega arith)) fits

digits_value_grows : (acc : ℕ) (cs : Bytes) (n : ℕ) → digits_value acc cs ≡ some n → acc ≤ n
unfolding digits_value
digits_value_grows acc [] n h = ground arith
digits_value_grows acc (c ∷ cs) n h =
    ground (arith, digits_value_grows (acc * 10 + (c - b'0')) cs n)

amount_of_cases :
    (acc : ℕ) (cs : Bytes)
    → acc < 2 ^ 64
    → ((digits_value acc cs ≡ some (amount_of acc cs)) × (amount_of acc cs < 2 ^ 64))
      ⊎ (((n : ℕ) → digits_value acc cs ≡ some n → 2 ^ 64 ≤ n)
          × ((amount_of acc cs ≡ 0) ⊎ (amount_of acc cs ≡ 2 ^ 64 - 1)))
unfolding digits_value amount_of
amount_of_cases acc [] h = inl (refl, h)
amount_of_cases acc (c ∷ cs) h = ground (
  arith,
  amount_of_cases (acc * 10 + (c - b'0')) cs,
  digits_value_grows (acc * 10 + (c - b'0')) cs,
)

-- What the client makes of a word that stands for an amount: if it is a uint64 in decimal, that
-- number; any other word is no error, but 0 or the largest uint64.
pub parsed_amount_cases :
    (word : Bytes)
    → (parse_uint word ≡ ok (parsed_amount word))
      ⊎ (((n : ℕ) → parse_uint word ≢ ok n)
          × ((parsed_amount word ≡ 0) ⊎ (parsed_amount word ≡ 2 ^ 64 - 1)))
unfolding parse_uint parsed_amount
parsed_amount_cases [] = inr (λ n h. ground arith, inl refl)
parsed_amount_cases (c ∷ cs) = ground (arith, amount_of_cases 0 (c ∷ cs))
