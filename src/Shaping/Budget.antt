-- ===== src/Shaping/Budget.antt =====
-- Which preset `shape_for_budget` settles on.
use svm_wasi_core.Base.{
  false, le→leb, take, All, ℕ, suc, ◌+◌, ◌≤◌, ◌≡◌, ◌⊎◌, refl, List, [], ◌∷◌, some, leb, arith, inl,
  inr, get_elem?, length,
}
use svm_wasi_core.Shaping.{
  Value, Json, estimate_tokens, aggressiveness_levels, shape_json, budget_loop, shape_for_budget,
}

not_le→leb : (a b : ℕ) → ¬ (a ≤ b) → leb a b ≡ false
not_le→leb a b h = ground arith

module _ {Other : Type 0} (J : Json Other) (value : Value Other) (budget_tokens : ℕ) where
  open J use {to_string}

  abbrev pub shaped_at : ℕ × ℕ → Value Other
  shaped_at (max_items, max_chars) = shape_json J max_items max_chars value

  -- The text of the value fits the budget.
  abbrev pub InBudget : Value Other → Type 0
  InBudget v = estimate_tokens (to_string v) ≤ budget_tokens

  -- `v` is the value at preset `i` of `levels`; it fits, or it is the last; no earlier one fits.
  pub record Chosen (levels : List (ℕ × ℕ)) (v : Value Other) : Type 0 where
    pub preset : ℕ
    pub limits : ℕ × ℕ
    pub at_preset : get_elem? levels preset ≡ some limits
    pub result : v ≡ shaped_at limits
    pub fits_or_last : InBudget v ⊎ (preset + 1 ≡ length levels)
    pub earlier_too_large : All (λ l. ¬ InBudget (shaped_at l)) (take preset levels)

  Chosen-next :
      (l : ℕ × ℕ) (levels : List (ℕ × ℕ)) (v : Value Other)
      → ¬ InBudget (shaped_at l)
      → Chosen levels v
      → Chosen (l ∷ levels) v
  Chosen-next l levels v large c = record {
    preset = suc c.preset;
    limits = c.limits;
    at_preset = c.at_preset;
    result = c.result;
    fits_or_last = elim c.fits_or_last [ inl f ↦ inl f | inr e ↦ inr (omega (arith, e)) ];
    earlier_too_large = (large, c.earlier_too_large);
  }

  Chosen-first :
      (l : ℕ × ℕ) (levels : List (ℕ × ℕ))
      → InBudget (shaped_at l) ⊎ (1 ≡ length (l ∷ levels))
      → Chosen (l ∷ levels) (shaped_at l)
  Chosen-first l levels h = record {
    preset = 0;
    limits = l;
    at_preset = refl;
    result = refl;
    fits_or_last = h;
    earlier_too_large = tt;
  }

  fits_test : (l : ℕ × ℕ) → (InBudget (shaped_at l)) ⊎ (¬ InBudget (shaped_at l))
  fits_test l = grind arith

  budget_loop-Chosen :
      (l : ℕ × ℕ) (levels : List (ℕ × ℕ)) (last : Value Other)
      → Chosen (l ∷ levels) (budget_loop J value budget_tokens (l ∷ levels) last)
  unfolding budget_loop
  budget_loop-Chosen (n, m) [] last = elim (fits_test (n, m)) [
    | inl h ↦ rw (le→leb _ _ h) (Chosen-first (n, m) [] (inl h))
    | inr h ↦ rw (not_le→leb _ _ h) (Chosen-first (n, m) [] (inr refl))
  ]
  budget_loop-Chosen (n, m) (l ∷ more) last = elim (fits_test (n, m)) [
    | inl h ↦ rw (le→leb _ _ h) (Chosen-first (n, m) (l ∷ more) (inl h))
    | inr h ↦
        rw (not_le→leb _ _ h)
          (Chosen-next (n, m) (l ∷ more) _ h (budget_loop-Chosen l more (shaped_at (n, m))))
  ]

  -- `shape_for_budget` returns the value shaped by the first preset whose result fits the budget,
  -- and by the last preset if none fits.
  pub shape_for_budget-Chosen :
      Chosen aggressiveness_levels (shape_for_budget J value budget_tokens)
  unfolding shape_for_budget
  shape_for_budget-Chosen = budget_loop-Chosen (20, 500) _ value

  -- A value that fits under the first preset gets no other.
  pub shape_for_budget_first :
      InBudget (shaped_at (20, 500)) → shape_for_budget J value budget_tokens ≡ shaped_at (20, 500)
  unfolding shape_for_budget budget_loop
  shape_for_budget_first h = rw (le→leb _ _ h)
