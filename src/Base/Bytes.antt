-- ===== src/Base/Bytes.antt =====
-- Byte strings as lists of numbers: little-endian integers, and fields behind one another.
use Prim.Native.Nat.{ℕ, zero, suc, ◌+◌, ◌*◌, ◌/◌, ◌%◌, ◌^◌, ◌<◌}
use mathlib.Core.Path.{◌≡◌, refl, ap, ◌∙◌}
use mathlib.Core.List.{List, [], ◌∷◌, ◌++◌, append_assoc}
use mathlib.Core.Option.{some}
use native.Mathlib.Omega.{arith}
use native.Mathlib.Nat.{pow-suc, mul_comm}
use svm_wasi_core.Base.Lists.{length, length-append, get_elem?, get_elem?-append, All}
use svm_wasi_core.Base.Calls.{ok, slice, slice_middle, index, index-some}

abbrev pub IsByte : ℕ → Type 0
IsByte b = b < 256

-- `n.to_le_bytes()` of an unsigned integer of `w` bytes.
unfoldable pub to_le_bytes : ℕ → ℕ → List ℕ
to_le_bytes zero n = []
to_le_bytes (suc w) n = n % 256 ∷ to_le_bytes w (n / 256)

unfoldable pub from_le_bytes : List ℕ → ℕ
from_le_bytes [] = 0
from_le_bytes (b ∷ bs) = b + 256 * from_le_bytes bs

pub length-to_le_bytes : (w n : ℕ) → length (to_le_bytes w n) ≡ w
unfolding to_le_bytes
length-to_le_bytes zero n = refl
length-to_le_bytes (suc w) n = ap suc (length-to_le_bytes w (n / 256))

pub from-to_le_bytes : (w n : ℕ) → n < 256 ^ w → from_le_bytes (to_le_bytes w n) ≡ n
unfolding to_le_bytes from_le_bytes
from-to_le_bytes zero n h = omega arith
from-to_le_bytes (suc w) n h =
    let bound : n < 256 * 256 ^ w = rw (← mul_comm (256 ^ w) 256, ← pow-suc) h in
    omega (arith, from-to_le_bytes w (n / 256) (omega arith))

low_byte : (b n : ℕ) → b < 256 → (b + 256 * n) % 256 ≡ b
low_byte b n h = omega arith

high_bytes : (b n : ℕ) → b < 256 → (b + 256 * n) / 256 ≡ n
high_bytes b n h = omega arith

pub to-from_le_bytes :
    (bs : List ℕ) → All IsByte bs → to_le_bytes (length bs) (from_le_bytes bs) ≡ bs
unfolding to_le_bytes from_le_bytes
to-from_le_bytes [] h = refl
to-from_le_bytes (b ∷ bs) (hb, hbs) =
    cc (
      to-from_le_bytes bs hbs,
      low_byte b (from_le_bytes bs) hb,
      high_bytes b (from_le_bytes bs) hb,
    )

-- Fields behind one another, the way `extend_from_slice` lays them out.
abbrev pub concat : List (List ℕ) → List ℕ
concat [] = []
concat (p ∷ ps) = p ++ concat ps

-- Where field `i` starts.
abbrev pub offset : List (List ℕ) → ℕ → ℕ
offset ps zero = 0
offset [] (suc i) = 0
offset (p ∷ ps) (suc i) = length p + offset ps i

abbrev pub total : List (List ℕ) → ℕ
total [] = 0
total (p ∷ ps) = length p + total ps

pub length-concat : (ps : List (List ℕ)) → length (concat ps) ≡ total ps
length-concat [] = refl
length-concat (p ∷ ps) = omega (arith, length-append p (concat ps), length-concat ps)

split_at :
    (ps : List (List ℕ)) (i : ℕ) (p : List ℕ)
    → get_elem? ps i ≡ some p
    → (front : List ℕ) × (back : List ℕ) × (concat ps ≡ front ++ (p ++ back))
      × (length front ≡ offset ps i)
split_at [] i p h = cc
split_at (q ∷ ps) zero p h = ([], concat ps, cc, refl)
split_at (q ∷ ps) (suc i) p h =
    let (front, back, e, l) = split_at ps i p h in
    (q ++ front, back, rw (e, append_assoc), omega (arith, length-append q front))

-- The slice from the start of a field to its end is the field.
pub slice-concat {ℓ} :
    {E : Type ℓ} (ps : List (List ℕ)) (i : ℕ) (p : List ℕ) (a b : ℕ)
    → get_elem? ps i ≡ some p
    → offset ps i ≡ a
    → a + length p ≡ b
    → slice {E = E} (concat ps) a b ≡ ok p
slice-concat ps i p a b h ha hb =
    let (front, back, e, l) = split_at ps i p h in rw e (slice_middle front p back a b (l ∙ ha) hb)

-- So is the byte at the start of a field of one byte.
pub index-concat {ℓ} :
    {E : Type ℓ} (ps : List (List ℕ)) (i b a : ℕ)
    → get_elem? ps i ≡ some (b ∷ [])
    → offset ps i ≡ a
    → index {E = E} (concat ps) a ≡ ok b
index-concat ps i b a h ha =
    let (front, back, e, l) = split_at ps i (b ∷ []) h in
    rw e (index-some _ a b (get_elem?-append a front b back (l ∙ ha)))
