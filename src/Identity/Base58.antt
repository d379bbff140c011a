-- ===== src/Identity/Base58.antt =====
-- wallet-sdk/src/identity/AgentIdentity.ts: `encodeBase58` and `decodeBase58`, which keep the digits of
-- one base, the lowest first, and carry each digit of the other base through them. The carry is below
-- 2 ^ 31, where `| 0`, `& 0xff` and `>> 8` are a quotient or a remainder.
pub mod Carried
pub mod Agreed
use reth_monmouth.Common.{
  ℕ, zero, suc, ◌+◌, ◌*◌, ◌/◌, ◌%◌, Bool, true, false, Option, none, some, ◌>>=◌, List, [], ◌∷◌,
  ◌++◌, map, ◌==◌, if◌then◌else◌, repeat,
}
use reth_monmouth.Common.Text.{Text}
use reth_monmouth.Core.Base58.{base58_alphabet, base58_char, index_of, count_leading}

-- `while (carry > 0)`: the fuel is the carry.
push_loop : ℕ → ℕ → ℕ → List ℕ
push_loop base zero carry = []
push_loop base (suc f) carry =
    let rest = push_loop base f (carry / base) in if carry == 0 then [] else carry % base ∷ rest

-- The loop over the digits, and the digits that it pushes behind them.
unfoldable pub carry_through : ℕ → ℕ → ℕ → List ℕ → List ℕ
unfolding push_loop
carry_through base factor carry [] = push_loop base carry carry
carry_through base factor carry (d ∷ ds) =
    let sum = carry + d * factor in sum % base ∷ carry_through base factor (sum / base) ds

-- The loop over what is converted, which is written in base `factor`.
unfoldable pub convert : ℕ → ℕ → List ℕ → List ℕ → List ℕ
unfolding carry_through
convert base factor [] ds = ds
convert base factor (c ∷ cs) ds = convert base factor cs (carry_through base factor c ds)

-- The digits from the highest on, before `acc`.
unfoldable pub reversed_onto : List ℕ → List ℕ → List ℕ
reversed_onto [] acc = acc
reversed_onto (d ∷ ds) acc = reversed_onto ds (d ∷ acc)

unfoldable pub encode_base58 : List ℕ → Text
unfolding convert reversed_onto base58_char count_leading
encode_base58 bytes =
    repeat (count_leading 0 bytes) b'1'
    ++ map base58_char (reversed_onto (convert 58 256 bytes (0 ∷ [])) [])

-- The values of the characters; `none` is the error of a character that has none.
unfoldable pub char_values : Text → Option (List ℕ)
unfolding index_of
char_values [] = some []
char_values (c ∷ s) = do v ← index_of c base58_alphabet; vs ← char_values s; some (v ∷ vs)

unfoldable pub decode_base58 : Text → Option (List ℕ)
unfolding char_values convert reversed_onto count_leading
decode_base58 str = do
  chars ← char_values str
  some (repeat (count_leading b'1' str) 0 ++ reversed_onto (convert 256 58 chars (0 ∷ [])) [])
