-- ===== src/Identity/Base58/Carried.antt =====
-- What the carrying loops of wallet-sdk/src/identity/AgentIdentity.ts keep.
use reth_monmouth.Common.{
  ℕ, zero, suc, ◌+◌, ◌*◌, ◌/◌, ◌%◌, ◌<◌, ◌≤◌, ◌≡◌, refl, sym, ap, ◌∙◌, false, List, [], ◌∷◌, arith,
  ◌==◌, Bool-cases, inl, inr,
}
use native.Mathlib.Nat.{div-lt_self, mod-lt, mul-zero, mul-pos, mul_comm}
use reth_monmouth.Common.Radix.{value, digits, AreDigits, StartsNonzero, digits-value}
use reth_monmouth.Identity.Base58.{push_loop, carry_through, convert, reversed_onto}

-- The number that digits spell, the lowest first.
abbrev pub low_value : ℕ → List ℕ → ℕ
low_value base [] = 0
low_value base (d ∷ ds) = d + base * low_value base ds

-- The highest digit, if there is one, is not 0.
abbrev pub TopNonzero : List ℕ → Type 0
TopNonzero [] = Unit
TopNonzero (d ∷ []) = 0 < d
TopNonzero (d ∷ e ∷ ds) = TopNonzero (e ∷ ds)

pub value-reversed_onto :
    (base : ℕ) (ds acc : List ℕ)
    → ((n d : ℕ) → d + base * n ≡ n * base + d)
    → value base 0 (reversed_onto ds acc) ≡ value base (low_value base ds) acc
unfolding value reversed_onto
value-reversed_onto base [] acc h = refl
value-reversed_onto base (d ∷ ds) acc h =
    value-reversed_onto base ds (d ∷ acc) h
    ∙ ap (λ n. value base n acc) (sym (h (low_value base ds) d))

pub AreDigits-reversed_onto :
    (base : ℕ) (ds acc : List ℕ)
    → AreDigits base ds
    → AreDigits base acc
    → AreDigits base (reversed_onto ds acc)
unfolding reversed_onto
AreDigits-reversed_onto base [] acc h k = k
AreDigits-reversed_onto base (d ∷ ds) acc (h, hs) k =
    AreDigits-reversed_onto base ds (d ∷ acc) hs (h, k)

pub StartsNonzero-reversed_onto :
    (d : ℕ) (ds acc : List ℕ) → TopNonzero (d ∷ ds) → StartsNonzero (reversed_onto (d ∷ ds) acc)
unfolding reversed_onto
StartsNonzero-reversed_onto d [] acc h = h
StartsNonzero-reversed_onto d (e ∷ ds) acc h = StartsNonzero-reversed_onto e ds (d ∷ acc) h

module _ (base factor : ℕ) (large : 1 < base)
    (law : (carry d v : ℕ)
      → (carry + d * factor) % base + base * ((carry + d * factor) / base + factor * v)
        ≡ carry + factor * (d + base * v))
    (split : (n : ℕ) → n % base + base * (n / base) ≡ n) where
  low_value-push_loop : (f n : ℕ) → n ≤ f → low_value base (push_loop base f n) ≡ n
  unfolding push_loop
  low_value-push_loop zero n h = omega arith
  low_value-push_loop (suc f) zero h = refl
  low_value-push_loop (suc f) (suc n) h =
      let more : (suc n == 0) ≡ false = ground arith in
      let smaller : suc n / base < suc n = div-lt_self (omega arith) large in
      rw more (
        ap (λ m. suc n % base + base * m) (low_value-push_loop f (suc n / base) (omega arith))
        ∙ split (suc n))

  AreDigits-push_loop : (f n : ℕ) → AreDigits base (push_loop base f n)
  unfolding push_loop
  AreDigits-push_loop zero n = tt
  AreDigits-push_loop (suc f) n = elim (Bool-cases (n == 0)) [
    | inl blank ↦ rw blank tt
    | inr more ↦ rw more (mod-lt n (omega arith), AreDigits-push_loop f (n / base))
  ]

  TopNonzero-before :
      (d : ℕ) (ds : List ℕ) → (low_value base ds ≡ 0 → 0 < d) → TopNonzero ds → TopNonzero (d ∷ ds)
  TopNonzero-before d [] h k = h refl
  TopNonzero-before d (e ∷ ds) h k = k

  tail : (d : ℕ) (ds : List ℕ) → TopNonzero (d ∷ ds) → TopNonzero ds
  tail d [] h = tt
  tail d (e ∷ ds) h = h

  TopNonzero-push_loop : (f n : ℕ) → n ≤ f → TopNonzero (push_loop base f n)
  unfolding push_loop
  TopNonzero-push_loop zero n h = tt
  TopNonzero-push_loop (suc f) zero h = tt
  TopNonzero-push_loop (suc f) (suc n) h =
      let more : (suc n == 0) ≡ false = ground arith in
      let smaller : suc n / base < suc n = div-lt_self (omega arith) large in
      let below : suc n / base ≤ f = omega arith in
      let whole = split (suc n) in
      rw more (
        TopNonzero-before (suc n % base) (push_loop base f (suc n / base))
          (λ e.
            let last : suc n / base ≡ 0 = sym (low_value-push_loop f (suc n / base) below) ∙ e in
            omega (arith, (rw last at whole), mul-zero base))
          (TopNonzero-push_loop f (suc n / base) below))

  -- Carrying multiplies by the factor and adds.
  low_value-carry_through :
      (carry : ℕ) (ds : List ℕ)
      → low_value base (carry_through base factor carry ds) ≡ carry + factor * low_value base ds
  unfolding carry_through
  low_value-carry_through carry [] =
      low_value-push_loop carry carry (omega arith) ∙ omega (arith, mul-zero factor)
  low_value-carry_through carry (d ∷ ds) =
      let sum = carry + d * factor in
      ap (λ m. sum % base + base * m) (low_value-carry_through (sum / base) ds)
      ∙ law carry d (low_value base ds)

  AreDigits-carry_through :
      (carry : ℕ) (ds : List ℕ) → AreDigits base (carry_through base factor carry ds)
  unfolding carry_through
  AreDigits-carry_through carry [] = AreDigits-push_loop carry carry
  AreDigits-carry_through carry (d ∷ ds) = (
    mod-lt (carry + d * factor) (omega arith),
    AreDigits-carry_through ((carry + d * factor) / base) ds,
  )

  low_value-pos : (d : ℕ) (ds : List ℕ) → TopNonzero (d ∷ ds) → 0 < low_value base (d ∷ ds)
  low_value-pos d [] h = omega (arith, mul-zero base)
  low_value-pos d (e ∷ ds) h =
      let some_base : 0 < base = omega arith in
      omega (arith, mul-pos some_base (low_value-pos e ds h))

  TopNonzero-joined :
      (carry d : ℕ) (ds : List ℕ)
      → TopNonzero (carry_through base factor ((carry + d * factor) / base) ds)
      → 0 < carry + factor * low_value base (d ∷ ds)
      → TopNonzero (carry_through base factor carry (d ∷ ds))
  unfolding carry_through
  TopNonzero-joined carry d ds h k =
      let sum = carry + d * factor in
      let rest = carry_through base factor (sum / base) ds in
      let whole = low_value-carry_through carry (d ∷ ds) in
      TopNonzero-before (sum % base) rest
        (λ e.
          let alone : base * low_value base rest ≡ 0 = ap (λ m. base * m) e ∙ mul-zero base in
          omega (arith, whole, alone))
        h

  TopNonzero-pushed : (n : ℕ) → TopNonzero (carry_through base factor n [])
  unfolding carry_through
  TopNonzero-pushed n = TopNonzero-push_loop n n (omega arith)

  value_nil : (n : ℕ) → value base n [] ≡ n
  unfolding value
  value_nil n = refl

  module _ (some_factor : 0 < factor) where
    -- The highest digit stays other than 0.
    TopNonzero-carry_through :
        (carry : ℕ) (ds : List ℕ) → TopNonzero ds → TopNonzero (carry_through base factor carry ds)
    TopNonzero-carry_through carry [] h = TopNonzero-pushed carry
    TopNonzero-carry_through carry (d ∷ ds) h =
        let more = mul-pos some_factor (low_value-pos d ds h) in
        TopNonzero-joined carry d ds
          (TopNonzero-carry_through ((carry + d * factor) / base) ds (tail d ds h))
          (omega (arith, more))

    -- What is kept: digits of the base that spell the number, of which those behind the first have a
    -- highest one other than 0, and so has the whole if the number is not 0.
    abbrev pub Kept : ℕ → List ℕ → Type 0
    Kept n [] = ⊥
    Kept n (d ∷ ds) =
        (low_value base (d ∷ ds) ≡ n)
        × AreDigits base (d ∷ ds)
        × TopNonzero ds
        × (0 < n → TopNonzero (d ∷ ds))

    Kept-joined :
        (c n d : ℕ) (ds : List ℕ)
        → low_value base (d ∷ ds) ≡ n
        → TopNonzero (carry_through base factor ((c + d * factor) / base) ds)
        → Kept (n * factor + c) (carry_through base factor c (d ∷ ds))
    unfolding carry_through
    Kept-joined c n d ds number h = (
      low_value-carry_through c (d ∷ ds)
          ∙ omega (arith, number, ap (λ m. factor * m) number, mul_comm factor n),
      AreDigits-carry_through c (d ∷ ds),
      h,
      λ k. TopNonzero-joined c d ds h (total k),
    )
      where
        total : 0 < n * factor + c → 0 < c + factor * low_value base (d ∷ ds)
        total k = omega (arith, number, ap (λ m. factor * m) number, mul_comm factor n)

    Kept-carry_through :
        (c n : ℕ) (ds : List ℕ) → Kept n ds → Kept (n * factor + c) (carry_through base factor c ds)
    Kept-carry_through c n [] h = absurd h
    Kept-carry_through c n (d ∷ ds) (number, small, rest, top) =
        Kept-joined c n d ds number (TopNonzero-carry_through ((c + d * factor) / base) ds rest)

    pub Kept-convert :
        (cs : List ℕ) (n : ℕ) (ds : List ℕ)
        → Kept n ds
        → Kept (value factor n cs) (convert base factor cs ds)
    unfolding convert value
    Kept-convert [] n ds h = h
    Kept-convert (c ∷ cs) n ds h =
        Kept-convert cs (n * factor + c) (carry_through base factor c ds)
          (Kept-carry_through c n ds h)

    digits-Kept :
        (n : ℕ) (ds : List ℕ)
        → ((m d : ℕ) → d + base * m ≡ m * base + d)
        → 0 < n
        → Kept n ds
        → reversed_onto ds [] ≡ digits base n []
    digits-Kept n [] comm k h = absurd h
    digits-Kept n (d ∷ ds) comm k (number, small, rest, top) =
        let spelt = value-reversed_onto base (d ∷ ds) [] comm in
        sym (
          digits-value base large (reversed_onto (d ∷ ds) [])
            (AreDigits-reversed_onto base (d ∷ ds) [] small tt)
            (StartsNonzero-reversed_onto d ds [] (top k)))
        ∙ ap (λ m. digits base m []) (spelt ∙ value_nil (low_value base (d ∷ ds)) ∙ number)

    -- A number other than 0 is converted to its digits.
    pub convert-digits :
        (cs : List ℕ)
        → ((m d : ℕ) → d + base * m ≡ m * base + d)
        → 0 < value factor 0 cs
        → reversed_onto (convert base factor cs (0 ∷ [])) [] ≡ digits base (value factor 0 cs) []
    convert-digits cs comm k =
        digits-Kept (value factor 0 cs) (convert base factor cs (0 ∷ [])) comm k
          (Kept-convert cs 0 (0 ∷ []) (ground (arith, mul-zero base)))
