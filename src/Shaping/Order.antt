-- ===== src/Shaping/Order.antt =====
-- Which items and entries `shape_json` keeps, and in which places.
use mathlib.Core.Option
use svm_wasi_core.Base.{
  ℕ, zero, suc, ◌-◌, ◌≡◌, refl, ap, List, [], ◌∷◌, Option, none, some, ltb, ◌==◌, ◌&&◌,
  if◌then◌else◌, arith, Bool-cases, inl, inr, map,
}
use svm_wasi_core.Shaping.Strings.{Text}
use svm_wasi_core.Shaping.Limits.{length-shape_items}
use svm_wasi_core.Shaping.{
  Value, array, object, Items, nil, cons, Fields, end, field, length_items, push, Json,
  truncation_marker, shape_json, shape_items, shape_fields,
}

module _ {Other : Type 0} where
  abbrev pub get_item? : Items Other → ℕ → Option (Value Other)
  get_item? nil i = none
  get_item? (cons v vs) zero = some v
  get_item? (cons v vs) (suc i) = get_item? vs i

  get_item?-push :
      (vs : Items Other) (w : Value Other) (i : ℕ)
      → get_item? (push vs w) i ≡ (if i == length_items vs then some w else get_item? vs i)
  get_item?-push nil w zero = refl
  get_item?-push nil w (suc i) = ground arith
  get_item?-push (cons v vs) w zero = ground arith
  get_item?-push (cons v vs) w (suc i) = ground (arith, get_item?-push vs w i)

  -- The items of an array result, and the entries of an object result as a list, in order.
  abbrev pub items_of : Value Other → Items Other
  items_of (array items) = items
  items_of _ = nil

  abbrev pub entries : Fields Other → List (Text × Value Other)
  entries end = []
  entries (field k v fs) = (k, v) ∷ entries fs

  abbrev pub entries_of : Value Other → List (Text × Value Other)
  entries_of (object map) = entries map
  entries_of _ = []

module _ {Other : Type 0} (J : Json Other) (n m : ℕ) where
  get_item?-shape_items :
      (vs : Items Other) (k i : ℕ)
      → get_item? (shape_items J n m vs k) i
        ≡ (if ltb i k then Option.map (shape_json J n m) (get_item? vs i) else none)
  unfolding shape_items
  get_item?-shape_items nil k i = ground arith
  get_item?-shape_items (cons w vs) zero i = ground arith
  get_item?-shape_items (cons w vs) (suc k) zero = ground arith
  get_item?-shape_items (cons w vs) (suc k) (suc i) = ground (arith, get_item?-shape_items vs k i)

  -- What stands in place `i` of the shaped array.
  abbrev pub expected_item : Items Other → ℕ → Option (Value Other)
  expected_item items i =
      if ltb i n
      then Option.map (shape_json J n m) (get_item? items i)
      else if i == n && ltb n (length_items items)
      then some (truncation_marker J (length_items items - n))
      else none

  -- An array comes out as its first `n` items, each shaped, in their places; behind them an array
  -- of more than `n` items has the marker with the number of the others, and nothing follows.
  pub shape_json-array :
      (items : Items Other) (i : ℕ)
      → get_item? (items_of (shape_json J n m (array items))) i ≡ expected_item items i
  unfolding shape_json
  shape_json-array items i = elim (Bool-cases (ltb n (length_items items))) [
    | inl e ↦
        rw (e, get_item?-push (shape_items J n m items n) _ i, get_item?-shape_items items n i)
          (ground (arith, length-shape_items J n m items n))
    | inr e ↦ rw (e, get_item?-shape_items items n i) (ground arith)
  ]

  entries-shape_fields :
      (fs : Fields Other)
      → entries (shape_fields J n m fs) ≡ map (λ e. (e.0, shape_json J n m e.1)) (entries fs)
  unfolding shape_fields
  entries-shape_fields end = refl
  entries-shape_fields (field k v fs) =
      ap (λ t. (k, shape_json J n m v) ∷ t) (entries-shape_fields fs)

  -- An object keeps all its keys, in their order, and each value is shaped.
  pub shape_json-object :
      (fs : Fields Other)
      → entries_of (shape_json J n m (object fs))
        ≡ map (λ e. (e.0, shape_json J n m e.1)) (entries fs)
  unfolding shape_json
  shape_json-object fs = entries-shape_fields fs
