-- ===== src/Common/Text.antt =====
-- JavaScript strings as lists of code units, with the string methods that the SDK calls.
-- `lower` and `upper` are `toLowerCase` and `toUpperCase` on ASCII, which addresses, selectors and URLs are written in.
use Prim.Native.Nat.{ℕ, ◌+◌, ◌-◌}
use Prim.Native.Char.{code}
use Prim.Native.String.{String}
use mathlib.Core.Path.{◌≡◌, refl}
use mathlib.Core.Logic.{◌↔◌}
use mathlib.Core.Bool.{Bool, true, false, ◌&&◌, ◌||◌}
use mathlib.Core.List.{List, [], ◌∷◌, ◌++◌, map}
use native.Mathlib.Omega.{arith}
use reth_monmouth.Common.Lists.{length, repeat, any, is_empty}
use reth_monmouth.Common.Tests.{leb, ◌==◌, if◌then◌else◌}

abbrev pub Text : Type 0
Text = List ℕ

-- A literal of the source.
abbrev pub codes : String → Text
codes String.[] = []
codes (String.◌∷◌ c s) = code c ∷ codes s

unfoldable pub text_eq : Text → Text → Bool
text_eq [] [] = true
text_eq [] (b ∷ t) = false
text_eq (a ∷ s) [] = false
text_eq (a ∷ s) (b ∷ t) = a == b && text_eq s t

-- `===` on strings is equality.
pub text_eq-true : (s t : Text) → text_eq s t ≡ true → s ≡ t
unfolding text_eq
text_eq-true [] [] h = refl
text_eq-true [] (b ∷ t) h = cc
text_eq-true (a ∷ s) [] h = cc
text_eq-true (a ∷ s) (b ∷ t) h = ground (arith, text_eq-true s t)

pub text_eq_self : (s : Text) → text_eq s s ≡ true
unfolding text_eq
text_eq_self [] = refl
text_eq_self (a ∷ s) = ground (arith, text_eq_self s)

pub text_eq_iff : (s t : Text) → (text_eq s t ≡ true) ↔ (s ≡ t)
text_eq_iff s t = (text_eq-true s t, λ e. rw e (text_eq_self t))

-- The blanks and line ends of JavaScript.
unfoldable pub is_blank : ℕ → Bool
is_blank c =
    (leb 9 c && leb c 13)
    || (leb 0x2000 c && leb c 0x200A)
    || any (λ blank. c == blank)
        (32 ∷ 0xA0 ∷ 0x1680 ∷ 0x2028 ∷ 0x2029 ∷ 0x202F ∷ 0x205F ∷ 0x3000 ∷ 0xFEFF ∷ [])

trim_start : Text → Text
unfolding is_blank
trim_start [] = []
trim_start (c ∷ s) = let rest = trim_start s in if is_blank c then rest else c ∷ s

-- What is left before the blanks at the end.
trim_end : Text → Text
unfolding is_blank
trim_end [] = []
trim_end (c ∷ s) = let rest = trim_end s in if is_empty rest && is_blank c then [] else c ∷ rest

-- `s.trim()`
unfoldable pub trim : Text → Text
unfolding trim_start trim_end
trim s = trim_end (trim_start s)

-- `s.padStart(n, c)` and `s.padEnd(n, c)`, for a single character `c`
unfoldable pub pad_start : ℕ → ℕ → Text → Text
pad_start n c s = repeat (n - length s) c ++ s

unfoldable pub pad_end : ℕ → ℕ → Text → Text
pad_end n c s = s ++ repeat (n - length s) c

unfoldable pub lower_code : ℕ → ℕ
lower_code c = if leb b'A' c && leb c b'Z' then c + 32 else c

-- `s.toLowerCase()`
unfoldable pub lower : Text → Text
unfolding lower_code
lower = map lower_code

upper_code : ℕ → ℕ
upper_code c = if leb b'a' c && leb c b'z' then c - 32 else c

-- `s.toUpperCase()`
unfoldable pub upper : Text → Text
unfolding upper_code
upper = map upper_code

-- `s.toLowerCase() === t.toLowerCase()`
unfoldable pub same_folded : Text → Text → Bool
unfolding text_eq lower
same_folded s t = text_eq (lower s) (lower t)

pub same_folded_iff : (s t : Text) → (same_folded s t ≡ true) ↔ (lower s ≡ lower t)
unfolding same_folded
same_folded_iff s t = text_eq_iff (lower s) (lower t)

-- `s.startsWith(p)`
unfoldable pub starts_with : Text → Text → Bool
starts_with [] s = true
starts_with (a ∷ p) [] = false
starts_with (a ∷ p) (b ∷ s) = a == b && starts_with p s

-- `s.includes(p)`
unfoldable pub includes : Text → Text → Bool
unfolding starts_with
includes p [] = starts_with p []
includes p (b ∷ s) = starts_with p (b ∷ s) || includes p s

lower_code_idempotent : (c : ℕ) → lower_code (lower_code c) ≡ lower_code c
unfolding lower_code
lower_code_idempotent c = ground arith

pub lower_idempotent : (s : Text) → lower (lower s) ≡ lower s
unfolding lower
lower_idempotent [] = refl
lower_idempotent (c ∷ s) = rw (lower_code_idempotent c, lower_idempotent s)
