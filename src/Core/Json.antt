-- ===== src/Core/Json.antt =====
-- wallet-sdk/src/core/utils.ts: `bigIntReplacer` and `bigIntReviver`, the functions that
-- `JSON.stringify` and `JSON.parse` call on each value. Numbers are shown by the text that JSON has.
use reth_monmouth.Common.{◌≡◌, refl, Bool, false, Option, none, some, ◌>>=◌, if◌then◌else◌}
use reth_monmouth.Common.Int.{ℤ, pos}
use reth_monmouth.Common.Text.{Text, codes, text_eq}
use reth_monmouth.Common.Decimal.{text_of_bigint, bigint_of_text, bigint_of_text-text_of_bigint}

mutual
  pub data Value : Type 0 where
    undefined null : Value
    boolean : Bool → Value
    number text : Text → Value
    bigint : ℤ → Value
    array : Values → Value
    object : Fields → Value

  pub data Values : Type 0 where
    nil : Values
    cons : Value → Values → Values

  pub data Fields : Type 0 where
    end : Fields
    field : Text → Value → Fields → Fields

-- `object[key]`
unfoldable pub get : Text → Fields → Value
unfolding text_eq
get key Fields.end = Value.undefined
get key (Fields.field k v fields) = let rest = get key fields in if text_eq key k then v else rest

unfoldable pub big_int_replacer : Value → Value
big_int_replacer (Value.bigint n) = Value.object (
    Fields.field (codes "__type") (Value.text (codes "bigint"))
      (Fields.field (codes "value") (Value.text (text_of_bigint n)) Fields.end))
big_int_replacer v = v

unfoldable pub is_text : Text → Value → Bool
unfolding text_eq
is_text s (Value.text t) = text_eq s t
is_text s v = false

-- `BigInt(value)`; `none` is its error. Arrays and objects, which have no place there, are refused too.
big_int_of : Value → Option Value
big_int_of (Value.text s) = do n ← bigint_of_text s; some (Value.bigint n)
big_int_of (Value.number s) = do n ← bigint_of_text s; some (Value.bigint n)
big_int_of (Value.boolean b) = some (Value.bigint (pos (if b then 1 else 0)))
big_int_of (Value.bigint n) = some (Value.bigint n)
big_int_of v = none

unfoldable pub big_int_reviver : Value → Option Value
unfolding get is_text big_int_of
big_int_reviver (Value.object fields) =
    if is_text (codes "bigint") (get (codes "__type") fields)
    then big_int_of (get (codes "value") fields)
    else some (Value.object fields)
big_int_reviver v = some v

-- What `JSON.stringify(value, bigIntReplacer)` writes: the replacer is called on a value before the
-- values inside it.
mutual
  unfolding big_int_replacer

  pub replaced : Value → Value
  replaced (Value.array vs) = Value.array (replaced_values vs)
  replaced (Value.object fields) = Value.object (replaced_fields fields)
  replaced v = big_int_replacer v

  replaced_values : Values → Values
  replaced_values Values.nil = Values.nil
  replaced_values (Values.cons v vs) = Values.cons (replaced v) (replaced_values vs)

  replaced_fields : Fields → Fields
  replaced_fields Fields.end = Fields.end
  replaced_fields (Fields.field k v fields) = Fields.field k (replaced v) (replaced_fields fields)

-- What `JSON.parse(text, bigIntReviver)` makes of it: the reviver is called on a value after the values
-- inside it.
mutual
  unfolding big_int_reviver

  pub revived : Value → Option Value
  revived (Value.array vs) = do vs' ← revived_values vs; some (Value.array vs')
  revived (Value.object fields) = do
    fields' ← revived_fields fields
    big_int_reviver (Value.object fields')
  revived v = big_int_reviver v

  revived_values : Values → Option Values
  revived_values Values.nil = some Values.nil
  revived_values (Values.cons v vs) = do
    v' ← revived v
    vs' ← revived_values vs
    some (Values.cons v' vs')

  revived_fields : Fields → Option Fields
  revived_fields Fields.end = some Fields.end
  revived_fields (Fields.field k v fields) = do
    v' ← revived v
    fields' ← revived_fields fields
    some (Fields.field k v' fields')

-- No object in the value has the tag that the replacer writes, and nothing in it is `undefined`, which
-- JSON leaves out.
unfoldable mutual
  pub IsPlain : Value → Type 0
  IsPlain Value.undefined = ⊥
  IsPlain (Value.array vs) = ArePlain vs
  IsPlain (Value.object fields) =
      (is_text (codes "bigint") (get (codes "__type") fields) ≡ false) × FieldsPlain fields
  IsPlain v = Unit

  ArePlain : Values → Type 0
  ArePlain Values.nil = Unit
  ArePlain (Values.cons v vs) = IsPlain v × ArePlain vs

  FieldsPlain : Fields → Type 0
  FieldsPlain Fields.end = Unit
  FieldsPlain (Fields.field k v fields) = IsPlain v × FieldsPlain fields

revived-bigint : (n : ℤ) → revived (replaced (Value.bigint n)) ≡ some (Value.bigint n)
unfolding revived replaced get is_text big_int_of text_eq
revived-bigint n = rw (bigint_of_text-text_of_bigint n) refl

mutual
  unfolding revived replaced IsPlain

  revive : (v : Value) → IsPlain v → revived (replaced v) ≡ some v
  revive Value.undefined h = absurd h
  revive Value.null h = refl
  revive (Value.boolean b) h = refl
  revive (Value.number s) h = refl
  revive (Value.text s) h = refl
  revive (Value.bigint n) h = revived-bigint n
  revive (Value.array vs) h = rw (revive_values vs h) refl
  revive (Value.object fields) (tag, h) = rw (revive_fields fields h) (rw tag refl)

  revive_values : (vs : Values) → ArePlain vs → revived_values (replaced_values vs) ≡ some vs
  revive_values Values.nil h = refl
  revive_values (Values.cons v vs) (h, hs) = rw (revive v h, revive_values vs hs) refl

  revive_fields :
      (fields : Fields) → FieldsPlain fields → revived_fields (replaced_fields fields) ≡ some fields
  revive_fields Fields.end h = refl
  revive_fields (Fields.field k v fields) (h, hs) = rw (revive v h, revive_fields fields hs) refl

-- A value with `bigint`s at any depth is written and read back as it was, if no object in it has the
-- tag of its own and nothing in it is `undefined`.
pub revived-replaced : (v : Value) → IsPlain v → revived (replaced v) ≡ some v
revived-replaced = revive
