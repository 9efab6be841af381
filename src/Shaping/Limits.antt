-- ===== src/Shaping/Limits.antt =====
-- What `shape_json` keeps, and what it bounds.
use svm_wasi_core.Base.{
  ◌∷◌, All, ◌↔◌, ltb→lt, ◌⊎◌, ℕ, zero, suc, ◌+◌, ◌-◌, ◌≤◌, ◌<◌, ◌≡◌, refl, ap, ◌++◌, ltb, leb,
  length, take, length-take, length-append, min, arith, Bool-cases, inl, inr, le→leb, leb→le,
}
use svm_wasi_core.Shaping.Strings.{
  Text, codes, decimal, read_decimal, read-decimal, IsDigit, decimal-IsDigit,
}
use svm_wasi_core.Shaping.{
  Value, string, array, object, other, Items, nil, cons, Fields, end, field, length_items, push,
  marker_text, truncate_string, Json, truncation_marker, with_marker, shape_json, shape_items,
  shape_fields,
}

-- What a truncated string may come to: `m` characters and the marker behind them.
abbrev pub IsShort : ℕ → Text → Type 0
IsShort m s = (length s ≤ m) ⊎ ((t : ℕ) × (length s ≡ m + length (marker_text t)) × (m < t))

module _ {Other : Type 0} (n m : ℕ) where
  -- No array has more than `n` items and no string more than `m` characters, at any depth.
  abbrev mutual
    pub Fits : Value Other → Type 0
    Fits (string s) = length s ≤ m
    Fits (array items) = (length_items items ≤ n) × FitsItems items
    Fits (object map) = FitsFields map
    Fits (other o) = Unit

    pub FitsItems : Items Other → Type 0
    FitsItems nil = Unit
    FitsItems (cons v vs) = Fits v × FitsItems vs

    pub FitsFields : Fields Other → Type 0
    FitsFields end = Unit
    FitsFields (field k v fs) = Fits v × FitsFields fs

  -- No array has more than `n + 1` items, and every string is short, at any depth.
  abbrev mutual
    pub Bounded : Value Other → Type 0
    Bounded (string s) = IsShort m s
    Bounded (array items) = (length_items items ≤ n + 1) × BoundedItems items
    Bounded (object map) = BoundedFields map
    Bounded (other o) = Unit

    pub BoundedItems : Items Other → Type 0
    BoundedItems nil = Unit
    BoundedItems (cons v vs) = Bounded v × BoundedItems vs

    pub BoundedFields : Fields Other → Type 0
    BoundedFields end = Unit
    BoundedFields (field k v fs) = Bounded v × BoundedFields fs

truncate_string_short : (s : Text) (m : ℕ) → length s ≤ m → truncate_string s m ≡ s
unfolding truncate_string
truncate_string_short s m h = rw (le→leb _ _ h)

truncate_string_long :
    (s : Text) (m : ℕ) → m < length s → truncate_string s m ≡ take m s ++ marker_text (length s)
unfolding truncate_string
truncate_string_long s m h = elim (Bool-cases (leb (length s) m)) [
  | inl e ↦ absurd (omega (arith, leb→le _ _ e))
  | inr e ↦ rw e
]

length-truncate_string_long :
    (s : Text) (m : ℕ)
    → m < length s
    → length (truncate_string s m) ≡ m + length (marker_text (length s))
length-truncate_string_long s m h =
    rw (truncate_string_long s m h)
      (omega (arith, length-append (take m s) (marker_text (length s)), length-take m s))

truncate_string-IsShort : (s : Text) (m : ℕ) → IsShort m (truncate_string s m)
truncate_string-IsShort s m = elim (Bool-cases (leb (length s) m)) [
  | inl e ↦ rw (truncate_string_short s m (leb→le _ _ e)) (inl (leb→le _ _ e))
  | inr e ↦
      let h : m < length s = ground arith in inr (length s, length-truncate_string_long s m h, h)
]

-- A string is kept, or its first `m` characters with, behind them, digits that stand for its length.
pub data Truncation (s : Text) (m : ℕ) : Text → Type 0 where
  kept : length s ≤ m → Truncation s m s
  shortened :
      (digits : Text)
      → m < length s
      → All IsDigit digits
      → read_decimal 0 digits ≡ length s
      → Truncation s m (take m s ++ (0x2026 ∷ codes "(" ++ (digits ++ codes " chars total)")))

truncate_string-Truncation' : (s : Text) (m : ℕ) → Truncation s m (truncate_string s m)
truncate_string-Truncation' s m = elim (Bool-cases (leb (length s) m)) [
  | inl e ↦ rw (truncate_string_short s m (leb→le _ _ e)) (kept (leb→le _ _ e))
  | inr e ↦
      let h : m < length s = ground arith in
      rw (truncate_string_long s m h)
        (shortened (decimal (length s)) h (decimal-IsDigit (length s)) (read-decimal (length s)))
]

-- Over the limit by less than the marker is long.
abbrev pub GrowsOver : Text → ℕ → Type 0
GrowsOver s m = (m < length s) × (length s < m + length (marker_text (length s)))

GrowsOver-longer : (s : Text) (m : ℕ) → GrowsOver s m → length s < length (truncate_string s m)
GrowsOver-longer s m (h, k) = omega (arith, length-truncate_string_long s m h)

longer-GrowsOver : (s : Text) (m : ℕ) → length s < length (truncate_string s m) → GrowsOver s m
longer-GrowsOver s m h = elim (Bool-cases (leb (length s) m)) [
  | inl e ↦ absurd (omega (arith, rw (truncate_string_short s m (leb→le _ _ e)) at h))
  | inr e ↦
      let k : m < length s = ground arith in (k, omega (arith, length-truncate_string_long s m k))
]

-- `truncate_string` keeps a string that is within the limit. Of any other it keeps as many
-- characters as the limit, and behind them the marker, whose digits stand for the number of
-- characters of the whole string. It gives a longer string than it got exactly for the strings
-- that are over the limit by less than the marker's length.
pub truncate_string-Truncation :
    (s : Text) (m : ℕ)
    → Truncation s m (truncate_string s m)
      × ((length s < length (truncate_string s m)) ↔ GrowsOver s m)
truncate_string-Truncation s m =
    (truncate_string-Truncation' s m, (longer-GrowsOver s m, GrowsOver-longer s m))

module _ {Other : Type 0} where
  pub length_items-push :
      (vs : Items Other) (w : Value Other) → length_items (push vs w) ≡ suc (length_items vs)
  length_items-push nil w = refl
  length_items-push (cons v vs) w = ap suc (length_items-push vs w)

module _ {Other : Type 0} (J : Json Other) (n m : ℕ) where
  pub with_marker_short : (t : ℕ) (vs : Items Other) → t ≤ n → with_marker J n m t vs ≡ vs
  with_marker_short t vs h = elim (Bool-cases (ltb n t)) [
    | inl e ↦ absurd (omega (arith, ltb→lt _ _ e))
    | inr e ↦ rw e
  ]

  pub length-shape_items :
      (vs : Items Other) (k : ℕ) → length_items (shape_items J n m vs k) ≡ min k (length_items vs)
  unfolding shape_items
  length-shape_items nil k = omega arith
  length-shape_items (cons v vs) zero = omega arith
  length-shape_items (cons v vs) (suc k) = omega (arith, length-shape_items vs k)

  mutual
    unfolding shape_json

    shape_json-Fits' : (v : Value Other) → Fits n m v → shape_json J n m v ≡ v
    shape_json-Fits' (string s) h = ap string (truncate_string_short s m h)
    shape_json-Fits' (array items) (l, h) =
        rw (shape_items_fits items n l h, with_marker_short (length_items items) items l)
    shape_json-Fits' (object map) h = ap object (shape_fields_fits map h)
    shape_json-Fits' (other o) h = refl

    shape_items_fits :
        (vs : Items Other) (k : ℕ)
        → length_items vs ≤ k
        → FitsItems n m vs
        → shape_items J n m vs k ≡ vs
    shape_items_fits nil k l h = refl
    shape_items_fits (cons v vs) zero l h = absurd (omega arith)
    shape_items_fits (cons v vs) (suc k) l (hv, hvs) =
        cc (shape_json-Fits' v hv, shape_items_fits vs k (omega arith) hvs)

    shape_fields_fits : (fs : Fields Other) → FitsFields n m fs → shape_fields J n m fs ≡ fs
    shape_fields_fits end h = refl
    shape_fields_fits (field k v fs) (hv, hfs) =
        cc (shape_json-Fits' v hv, shape_fields_fits fs hfs)

  BoundedItems-push :
      (vs : Items Other) (w : Value Other)
      → BoundedItems n m vs
      → Bounded n m w
      → BoundedItems n m (push vs w)
  BoundedItems-push nil w h k = (k, tt)
  BoundedItems-push (cons v vs) w (hv, hvs) k = (hv, BoundedItems-push vs w hvs k)

  with_marker-Bounded :
      (t : ℕ) (vs : Items Other)
      → BoundedItems n m vs
      → length_items vs ≤ n
      → Bounded n m (array (with_marker J n m t vs))
  with_marker-Bounded t vs h l = elim (Bool-cases (ltb n t)) [
    | inl e ↦ rw e (
      omega (arith, length_items-push vs (truncation_marker J (t - n))),
      BoundedItems-push vs (truncation_marker J (t - n)) h (tt, (tt, tt)),
    )
    | inr e ↦ rw e (omega arith, h)
  ]

  mutual
    unfolding shape_json

    shape_json-Bounded' : (v : Value Other) → Bounded n m (shape_json J n m v)
    shape_json-Bounded' (string s) = truncate_string-IsShort s m
    shape_json-Bounded' (array items) =
        with_marker-Bounded (length_items items) (shape_items J n m items n)
          (shape_items_bounded items n) (omega (arith, length-shape_items items n))
    shape_json-Bounded' (object map) = shape_fields_bounded map
    shape_json-Bounded' (other o) = tt

    shape_items_bounded : (vs : Items Other) (k : ℕ) → BoundedItems n m (shape_items J n m vs k)
    shape_items_bounded nil k = tt
    shape_items_bounded (cons v vs) zero = tt
    shape_items_bounded (cons v vs) (suc k) = (shape_json-Bounded' v, shape_items_bounded vs k)

    shape_fields_bounded : (fs : Fields Other) → BoundedFields n m (shape_fields J n m fs)
    shape_fields_bounded end = tt
    shape_fields_bounded (field k v fs) = (shape_json-Bounded' v, shape_fields_bounded fs)

  -- A value within the limits at every depth is returned as it is.
  pub shape_json-Fits : (v : Value Other) → Fits n m v → shape_json J n m v ≡ v
  shape_json-Fits v h = shape_json-Fits' v h

  -- In what `shape_json` returns, at every depth, an array has at most one item more than the
  -- limit, and a string is within the limit or is as long as the limit and a marker together.
  pub shape_json-Bounded : (v : Value Other) → Bounded n m (shape_json J n m v)
  shape_json-Bounded v = shape_json-Bounded' v
