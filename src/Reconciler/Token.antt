-- ===== src/Reconciler/Token.antt =====
-- reconciler.go: constantTimeEqual, over the bytes of two strings.
use Prim.Native.Nat.{bit_or, bit_xor}
use sudo_service.Prelude.{ℕ, List, [], ◌∷◌, Bool, false, not, length, ◌==◌, if◌then◌else◌}

-- `d |= a[i] ^ b[i]` over all indices.
unfoldable pub difference : ℕ → List ℕ → List ℕ → ℕ
difference d [] bs = d
difference d (a ∷ as') [] = d
difference d (a ∷ as') (b ∷ bs) = difference (bit_or d (bit_xor a b)) as' bs

unfoldable pub constant_time_equal : List ℕ → List ℕ → Bool
constant_time_equal a b = if not (length a == length b) then false else difference 0 a b == 0
