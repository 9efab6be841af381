-- ===== src/UnitTests/Shapes.antt =====
-- The tests of src/shaping.rs, but for the one that prints an array of 5,000 entries.
use svm_wasi_core.Base.{
  ◌∙◌, if◌then◌else◌, ℕ, zero, suc, ◌≡◌, refl, ◌>>=◌, ◌>>◌, ◌==◌, ◌+◌, ◌||◌, Bool, ltb, Option,
  some, none, ok, [], ◌∷◌, length, take, replicate,
}
use svm_wasi_core.Base.Search.{bytes_eq}
use svm_wasi_core.Shaping.Strings.{decimal, byte_len, Text, codes}
use svm_wasi_core.Shaping.{
  Value, string, array, object, other, Items, nil, cons, Fields, end, field, length_items, Json,
  Floats, shape_json, shape_items, truncate_string, shape_for_budget, estimate_tokens, format_sol,
}
use svm_wasi_core.Shaping.Budget.{InBudget, shape_for_budget_first}
use svm_wasi_core.UnitTests.{Test, assert, assert_eq, assert_eq_holds, unwrap_some}

-- `starts_with` and `contains` on texts
abbrev starts_with : Text → Text → Bool
starts_with s t = bytes_eq (take (length t) s) t

abbrev contains : Text → Text → Bool
contains [] t = starts_with [] t
contains (c ∷ s) t = starts_with (c ∷ s) t || contains s t

module _ {Other : Type 0} (J : Json Other) where
  -- `json!(n)`
  abbrev int : ℕ → Value Other
  int n = other (J.json_number n)

  -- `as_str`, `as_array`, `v[i]` and `v[key]`; a test that indexes what is not there fails.
  abbrev text_of : Value Other → Option Text
  text_of (string s) = some s
  text_of (array items) = none
  text_of (object map) = none
  text_of (other o) = none

  abbrev items_of : Value Other → Option (Items Other)
  items_of (string s) = none
  items_of (array items) = some items
  items_of (object map) = none
  items_of (other o) = none

  abbrev item : Items Other → ℕ → Option (Value Other)
  item nil i = none
  item (cons v vs) zero = some v
  item (cons v vs) (suc i) = item vs i

  abbrev find : Fields Other → Text → Option (Value Other)
  find end key = none
  find (field k v fs) key = if bytes_eq k key then some v else find fs key

  abbrev at : Value Other → Text → Option (Value Other)
  at (string s) key = none
  at (array items) key = none
  at (object map) key = find map key
  at (other o) key = none

  module _ (same : Discrete (Value Other)) where
    unfoldable short_values_pass_through_unchanged : Test
    short_values_pass_through_unchanged = do
      let value = object (
          field (codes "a") (int 1) (
            field (codes "b") (string (codes "short"))
              (field (codes "c") (array (cons (int 1) (cons (int 2) (cons (int 3) nil)))) end)))
      assert_eq same (shape_json J 20 500 value) value

    unfoldable long_string_is_truncated_with_length_marker : Test
    long_string_is_truncated_with_length_marker = do
      let long = replicate 1000 120
      let shaped = shape_json J 20 100 (string long)
      shaped_str ← unwrap_some (text_of shaped)
      assert (starts_with shaped_str (replicate 100 120))
      assert (contains shaped_str (codes "1000 chars total"))

    -- `(start..start + n).map(Value::from)`
    abbrev counted : ℕ → ℕ → Items Other
    counted start zero = nil
    counted start (suc n) = cons (int start) (counted (start + 1) n)

    unfoldable long_array_keeps_prefix_and_marks_omitted_count : Test
    long_array_keeps_prefix_and_marks_omitted_count = do
      let shaped = shape_json J 5 500 (array (counted 0 50))
      items ← unwrap_some (items_of shaped)
      assert (length_items items == 6)
      first ← unwrap_some (item items 0)
      assert_eq same first (int 0)
      last ← unwrap_some (item items 4)
      assert_eq same last (int 4)
      marker ← unwrap_some (item items 5)
      truncated ← unwrap_some (at marker (codes "_truncated"))
      assert_eq same truncated (other J.json_true)
      omitted ← unwrap_some (at marker (codes "omitted_items"))
      assert_eq same omitted (int 45)

    unfoldable truncation_recurses_into_nested_objects_and_arrays : Test
    truncation_recurses_into_nested_objects_and_arrays = do
      let long = replicate 1000 121
      let value = object (
          field (codes "nested")
            (object (field (codes "deep") (array (cons (string long) nil)) end)) end)
      let shaped = shape_json J 20 50 value
      nested ← unwrap_some (at shaped (codes "nested"))
      deep ← unwrap_some (at nested (codes "deep"))
      items ← unwrap_some (items_of deep)
      first ← unwrap_some (item items 0)
      inner ← unwrap_some (text_of first)
      assert (ltb (byte_len inner) 1000)
      assert (contains inner (codes "1000 chars total"))

    -- `json!({"logs": ["line one", "line two"], "unitsConsumed": 150})`
    abbrev logs_value : Value Other
    logs_value = object (
        field (codes "logs")
          (array (cons (string (codes "line one")) (cons (string (codes "line two")) nil)))
          (field (codes "unitsConsumed") (int 150) end))

    unfoldable shape_for_budget_picks_the_least_aggressive_preset_that_fits : Test
    shape_for_budget_picks_the_least_aggressive_preset_that_fits =
        assert_eq same (shape_for_budget J logs_value 1000) logs_value

    short_values_pass_through_unchanged_lem : short_values_pass_through_unchanged ≡ ok tt
    unfolding short_values_pass_through_unchanged shape_json truncate_string shape_items
    short_values_pass_through_unchanged_lem = assert_eq_holds same _ _ refl

    long_string_is_truncated_with_length_marker_lem :
        long_string_is_truncated_with_length_marker ≡ ok tt
    unfolding long_string_is_truncated_with_length_marker shape_json truncate_string decimal
    long_string_is_truncated_with_length_marker_lem = refl

    long_array_keeps_prefix_and_marks_omitted_count_lem :
        long_array_keeps_prefix_and_marks_omitted_count ≡ ok tt
    unfolding long_array_keeps_prefix_and_marks_omitted_count shape_json shape_items
    long_array_keeps_prefix_and_marks_omitted_count_lem = rw (
      assert_eq_holds same (int 0) (int 0) refl,
      assert_eq_holds same (int 4) (int 4) refl,
      assert_eq_holds same (other J.json_true) (other J.json_true) refl,
      assert_eq_holds same (int 45) (int 45) refl,
    )

    truncation_recurses_into_nested_objects_and_arrays_lem :
        truncation_recurses_into_nested_objects_and_arrays ≡ ok tt
    unfolding truncation_recurses_into_nested_objects_and_arrays shape_json truncate_string decimal
    truncation_recurses_into_nested_objects_and_arrays_lem = refl

    logs_value_kept : shape_json J 20 500 logs_value ≡ logs_value
    unfolding shape_json shape_items truncate_string
    logs_value_kept = refl

    shape_for_budget_picks_the_least_aggressive_preset_that_fits_lem :
        InBudget J logs_value 1000 logs_value
        → shape_for_budget_picks_the_least_aggressive_preset_that_fits ≡ ok tt
    unfolding shape_for_budget_picks_the_least_aggressive_preset_that_fits
    shape_for_budget_picks_the_least_aggressive_preset_that_fits_lem h =
        assert_eq_holds same (shape_for_budget J logs_value 1000) logs_value
          (shape_for_budget_first J logs_value 1000 (rw logs_value_kept h) ∙ logs_value_kept)

-- `format_sol(n) == text` three times
unfoldable format_sol_divides_lamports_correctly : Floats → Test
format_sol_divides_lamports_correctly F = do
  assert (bytes_eq (format_sol F 1000000000) (codes "1.000000000 SOL"))
  assert (bytes_eq (format_sol F 1500000) (codes "0.001500000 SOL"))
  assert (bytes_eq (format_sol F 0) (codes "0.000000000 SOL"))

-- What `{:.9}` prints of `lamports as f64 / 1_000_000_000.0`
abbrev prints : Floats → ℕ → Text
prints F lamports = F.show_nine (F.divide (F.of_u64 lamports) (F.of_u64 1000000000))

format_sol_divides_lamports_correctly_lem :
    (F : Floats)
    → prints F 1000000000 ≡ codes "1.000000000"
    → prints F 1500000 ≡ codes "0.001500000"
    → prints F 0 ≡ codes "0.000000000"
    → format_sol_divides_lamports_correctly F ≡ ok tt
unfolding format_sol_divides_lamports_correctly format_sol
format_sol_divides_lamports_correctly_lem F one less nought = rw (one, less, nought)

unfoldable estimate_tokens_has_a_floor_of_one_even_for_empty_input : Test
estimate_tokens_has_a_floor_of_one_even_for_empty_input = do
  assert (estimate_tokens (codes "") == 1)
  assert (estimate_tokens (codes "a") == 1)

estimate_tokens_has_a_floor_of_one_even_for_empty_input_lem :
    estimate_tokens_has_a_floor_of_one_even_for_empty_input ≡ ok tt
unfolding estimate_tokens_has_a_floor_of_one_even_for_empty_input estimate_tokens
estimate_tokens_has_a_floor_of_one_even_for_empty_input_lem = refl
