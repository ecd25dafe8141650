-- ===== src/Money/Json.antt =====
-- The JSON of pkg/money/money.go. json.Marshal and json.Unmarshal of a string are parameters.
use tradesphere.Base.{
  ℕ, ◌≡◌, Bool, true, false, ◌||◌, Option, none, some, [], ◌∷◌, ◌==◌, if◌then◌else◌, Result, ok,
  err, arith,
}
use tradesphere.Int.{ℤ, InInt64}
use tradesphere.Text.{Text, codes, text_eq, is_empty, trim_space}
use tradesphere.Money.Decimal.{
  MoneyError, required, money_from_decimal, money_to_decimal, format_decimal,
}
use tradesphere.Money.RoundTrip.{parse_decimal-format_decimal}

pub data JsonError : Type 0 where
  syntax : JsonError
  money : MoneyError → JsonError

abbrev pub starts_with : ℕ → Text → Bool
starts_with c [] = false
starts_with c (d ∷ t) = d == c

module _ (marshal : Text → Text) (unmarshal : Text → Option Text) where
  -- decodeJSONDecimal
  unfoldable pub decode_json_decimal : Text → Result JsonError Text
  decode_json_decimal raw =
      let trimmed = trim_space raw in
      if is_empty trimmed || text_eq trimmed (codes "null")
      then err (money required)
      else if starts_with b'"' trimmed
      then elim (unmarshal raw) [ none ↦ err syntax | some text ↦ ok text ]
      else ok trimmed

  -- MarshalJSON and UnmarshalJSON, of Money and of Quantity
  unfoldable pub marshal_json : ℤ → Text
  marshal_json m = marshal (money_to_decimal m)

  unfoldable pub unmarshal_json : Text → Result JsonError ℤ
  unmarshal_json raw = elim (decode_json_decimal raw) [
    | err e ↦ err e
    | ok text ↦ elim (money_from_decimal text) [ err e ↦ err (money e) | ok v ↦ ok v ]
  ]

  -- UnmarshalJSON reads every int64 back from what MarshalJSON writes, if json.Unmarshal reads back
  -- the strings that json.Marshal writes, and these begin with a quotation mark.
  pub unmarshal_json-marshal_json :
      (m : ℤ)
      → InInt64 m
      → ((t : Text) → unmarshal (marshal t) ≡ some t)
      → ((t : Text) → starts_with b'"' (trim_space (marshal t)) ≡ true)
      → unmarshal_json (marshal_json m) ≡ ok m
  unfolding unmarshal_json marshal_json decode_json_decimal money_from_decimal money_to_decimal
  unmarshal_json-marshal_json m range reads quoted =
      let t = format_decimal m in
      ground (arith, reads t, quoted t, parse_decimal-format_decimal m range)
