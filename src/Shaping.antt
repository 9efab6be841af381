-- ===== src/Shaping.antt =====
-- src/shaping.rs: shrinking JSON values towards a token budget.
-- `Value` has the constructors that `shape_json` matches on; a null, a Boolean and a number fall
-- under its catch-all arm and are values of a parameter. So are the printing of a value and the
-- two leaves that `json!` builds, which are code of the package serde_json, and the floating-point
-- numbers that `format_sol` prints.
pub mod Strings
pub mod Limits
pub mod Order
pub mod Budget
use svm_wasi_core.Base.{
  ℕ, zero, suc, ◌+◌, ◌-◌, ◌/◌, ◌%◌, ◌≡◌, Bool, List, [], ◌∷◌, ◌++◌, ltb, leb, if◌then◌else◌, length,
  take, min,
}
use Prim.Native.Nat.{max}
use Strings.{Text, codes, byte_len, decimal}

-- `s.len().div_ceil(4).max(1)`
unfoldable pub estimate_tokens : Text → ℕ
estimate_tokens s = max ((byte_len s + 3) / 4) 1

-- `(max_array_items, max_string_chars)`, least aggressive first.
abbrev pub aggressiveness_levels : List (ℕ × ℕ)
aggressiveness_levels = (20, 500) ∷ (10, 200) ∷ (5, 80) ∷ (3, 40) ∷ (1, 20) ∷ []

-- `…` is one scalar value.
abbrev pub marker_text : ℕ → Text
marker_text total_chars = 0x2026 ∷ codes "(" ++ (decimal total_chars ++ codes " chars total)")

unfoldable pub truncate_string : Text → ℕ → Text
truncate_string s max_chars =
    let total_chars = length s in
    if leb total_chars max_chars then s else take max_chars s ++ marker_text total_chars

-- Floating-point numbers: `n as f64`, `a / b`, and `{:.9}`.
pub record Floats : Type 1 where
  pub Float : Type 0
  pub of_u64 : ℕ → Float
  pub divide : Float → Float → Float
  pub show_nine : Float → Text

unfoldable pub format_sol : Floats → ℕ → Text
format_sol F lamports =
    F.show_nine (F.divide (F.of_u64 lamports) (F.of_u64 1000000000)) ++ codes " SOL"

mutual
  pub data Value (Other : Type 0) : Type 0 where
    string : Text → Value Other
    array : Items Other → Value Other
    object : Fields Other → Value Other
    other : Other → Value Other

  pub data Items (Other : Type 0) : Type 0 where
    nil : Items Other
    cons : Value Other → Items Other → Items Other

  pub data Fields (Other : Type 0) : Type 0 where
    end : Fields Other
    field : Text → Value Other → Fields Other → Fields Other

module _ {Other : Type 0} where
  abbrev pub length_items : Items Other → ℕ
  length_items nil = 0
  length_items (cons v vs) = suc (length_items vs)

  -- `shaped.push(v)`
  abbrev pub push : Items Other → Value Other → Items Other
  push nil w = cons w nil
  push (cons v vs) w = cons v (push vs w)

-- What the package serde_json does here: `json!(true)`, `json!(n)` for a `usize`, and `to_string`.
pub record Json (Other : Type 0) : Type 0 where
  pub json_true : Other
  pub json_number : ℕ → Other
  pub to_string : Value Other → Text

module _ {Other : Type 0} (J : Json Other) where
  open J use {json_true, json_number, to_string}

  -- `json!({"_truncated": true, "omitted_items": n})`
  abbrev pub truncation_marker : ℕ → Value Other
  truncation_marker n = object (
      field (codes "_truncated") (other json_true)
        (field (codes "omitted_items") (other (json_number n)) end))

  module _ (max_array_items max_string_chars : ℕ) where
    abbrev pub with_marker : ℕ → Items Other → Items Other
    with_marker total shaped =
        if ltb max_array_items total
        then push shaped (truncation_marker (total - max_array_items))
        else shaped

    -- `shape_items k` is `items.iter().take(k).map(shape_json).collect()`.
    unfoldable mutual
      pub shape_json : Value Other → Value Other
      shape_json (string s) = string (truncate_string s max_string_chars)
      shape_json (array items) =
          array (with_marker (length_items items) (shape_items items max_array_items))
      shape_json (object map) = object (shape_fields map)
      shape_json (other o) = other o

      pub shape_items : Items Other → ℕ → Items Other
      shape_items nil k = nil
      shape_items (cons v vs) zero = nil
      shape_items (cons v vs) (suc k) = cons (shape_json v) (shape_items vs k)

      pub shape_fields : Fields Other → Fields Other
      shape_fields end = end
      shape_fields (field k v fs) = field k (shape_json v) (shape_fields fs)

  -- The loop of `shape_for_budget` over the presets that are left.
  budget_loop : Value Other → ℕ → List (ℕ × ℕ) → Value Other → Value Other
  budget_loop value budget_tokens [] most_aggressive = most_aggressive
  budget_loop value budget_tokens ((max_items, max_chars) ∷ levels) most_aggressive =
      let shaped = shape_json max_items max_chars value in
      let rest = budget_loop value budget_tokens levels shaped in
      if leb (estimate_tokens (to_string shaped)) budget_tokens then shaped else rest

  unfoldable pub shape_for_budget : Value Other → ℕ → Value Other
  unfolding budget_loop
  shape_for_budget value budget_tokens = budget_loop value budget_tokens aggressiveness_levels value
