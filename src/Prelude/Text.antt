-- ===== src/Prelude/Text.antt =====
-- std::string: a list of bytes, which may hold NULs. A C string ends at its first NUL.
use Prim.Native.Nat.{ℕ}
use Prim.Native.Char.{code}
use Prim.Native.String.{String}
use mathlib.Core.Path.{◌≡◌, refl}
use mathlib.Core.Bool.{Bool, true, false, ◌&&◌, ◌||◌}
use mathlib.Core.List.{List, [], ◌∷◌}
use native.Mathlib.Omega.{arith}
use iot_visual_management_sy.Prelude.Tests.{◌==◌}

abbrev pub Bytes : Type 0
Bytes = List ℕ

-- The bytes of an ASCII literal.
abbrev pub codes : String → Bytes
codes String.[] = []
codes (String.◌∷◌ c s) = code c ∷ codes s

-- `operator==` of two strings.
unfoldable pub eqb_bytes : Bytes → Bytes → Bool
eqb_bytes [] [] = true
eqb_bytes (a ∷ as') (b ∷ bs) = a == b && eqb_bytes as' bs
eqb_bytes _ _ = false

-- `find(c) != npos`
unfoldable pub has_byte : ℕ → Bytes → Bool
has_byte c [] = false
has_byte c (b ∷ bs) = c == b || has_byte c bs

unfoldable pub is_prefix : Bytes → Bytes → Bool
is_prefix [] bs = true
is_prefix (a ∷ as') [] = false
is_prefix (a ∷ as') (b ∷ bs) = a == b && is_prefix as' bs

-- `find(text) != npos`
unfoldable pub has_text : Bytes → Bytes → Bool
unfolding is_prefix
has_text t [] = is_prefix t []
has_text t (b ∷ bs) = is_prefix t (b ∷ bs) || has_text t bs

pub eqb_bytes_refl : (a : Bytes) → eqb_bytes a a ≡ true
unfolding eqb_bytes
eqb_bytes_refl [] = refl
eqb_bytes_refl (x ∷ xs) = ground (arith, eqb_bytes_refl xs)

pub eqb_bytes_sound : (a b : Bytes) → eqb_bytes a b ≡ true → a ≡ b
unfolding eqb_bytes
eqb_bytes_sound [] [] h = refl
eqb_bytes_sound (x ∷ xs) (y ∷ ys) h = ground (arith, eqb_bytes_sound xs ys)
eqb_bytes_sound [] (y ∷ ys) h = ground arith
eqb_bytes_sound (x ∷ xs) [] h = ground arith
