-- ===== src/Redfish/Json.antt =====
-- The JSON library behind the handlers is a parameter. `get_value_from_json_key` of src/util.cpp.
use cmm_sdk.Common.{ℕ, Bool, true, false, Option, none, some, []}
use cmm_sdk.Common.Text.{Text}

-- What the program uses of `web::json::value`. `none` is a `json_exception`.
pub record Json : Type 1 where
  pub Value : Type 0
  pub null : Value
  pub has_field : Value → Text → Bool
  pub at_key : Value → Text → Option Value
  -- `as_object().find(key) != as_object().end()`
  pub find_field : Value → Text → Option Bool
  pub as_string : Value → Option Text
  pub as_bool : Value → Option Bool
  pub size : Value → ℕ
  pub at_index : Value → ℕ → Option Value

module _ (J : Json) where
  open J use {Value, null, has_field, at_key, as_string, as_bool}

  abbrev pub or_default {ℓ} : {A : Type ℓ} → A → Option A → Bool × A
  or_default d none = (false, d)
  or_default d (some a) = (true, a)

  abbrev pub and_then {ℓ} : {A : Type ℓ} → Option Value → (Value → Option A) → Option A
  and_then none f = none
  and_then (some v) f = f v

  abbrev pub when_field {ℓ} : {A : Type ℓ} → Bool → Option A → Option A
  when_field true o = o
  when_field false o = none

  -- The overload for `string&`: a missing field and an exception both give the empty text.
  unfoldable pub get_string : Value → Text → Bool × Text
  get_string body key =
      or_default [] (when_field (has_field body key) (and_then (at_key body key) as_string))

  -- The overload for `bool&`.
  unfoldable pub get_bool : Value → Text → Bool × Bool
  get_bool body key =
      or_default false (when_field (has_field body key) (and_then (at_key body key) as_bool))

  -- The overload for `json::value&`.
  unfoldable pub get_json : Value → Text → Bool × Value
  get_json body key = or_default null (when_field (has_field body key) (at_key body key))
