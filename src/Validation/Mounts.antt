-- ===== src/Validation/Mounts.antt =====
-- What a request that passes validateSpecExtras may contain.
use sudo_service.Prelude.{
  String, List, [], ◌∷◌, Bool, true, false, not, ◌≡◌, ◌↔◌, refl, ap, arith, All, Distinct, contains,
  ◌===◌, if◌then◌else◌,
}
use sudo_service.Types.{VolumeMount, Error, Result, ok, err, is_ok}
use sudo_service.Validation.{validate_mounts_from}

-- A mount of a volume that exists, with no field beside the four.
abbrev pub Refers : List String → VolumeMount → Type 0
Refers names m = (contains names m.name ≡ true) × (m.other_fields ≡ false)

-- None of the paths taken so far.
abbrev Fresh : List String → VolumeMount → Type 0
Fresh seen m = contains seen m.mount_path ≡ false

abbrev pub paths : List VolumeMount → List String
paths [] = []
paths (m ∷ ms) = m.mount_path ∷ paths ms

test_iff : (x s : Bool) → ((if x then true else s) ≡ false) ↔ ((x ≡ false) × (s ≡ false))
test_iff true s = (λ h. ground (arith, h), λ h. h.0)
test_iff false s = (λ h. (refl, h), λ h. h.1)

Fresh-cons :
    (p : String) (seen : List String) (ms : List VolumeMount)
    → (All (Fresh (p ∷ seen)) ms) ↔ (All (λ y. (p === y) ≡ false) (paths ms) × All (Fresh seen) ms)
unfolding contains
Fresh-cons p seen [] = (λ h. (tt, tt), λ h. tt)
Fresh-cons p seen (m ∷ ms) =
    let head = test_iff (p === m.mount_path) (contains seen m.mount_path) in
    let rest = Fresh-cons p seen ms in
    (
      λ h. (((head.0 h.0).0, (rest.0 h.1).0), ((head.0 h.0).1, (rest.0 h.1).1)),
      λ h. (head.1 (h.0.0, h.1.0), rest.1 (h.0.1, h.1.1)),
    )

-- The guards of one round of the loop.
round_iff :
    (a b d : Bool) (x y z : Error) (k : Result (Unit {0}))
    → ((if not a then err x else if b then err y else if d then err z else k) ≡ ok tt)
      ↔ ((a ≡ true) × (b ≡ false) × (d ≡ false) × (k ≡ ok tt))
round_iff true false false x y z k = (λ h. (refl, refl, refl, h), λ h. h.3)
round_iff false b d x y z k = (λ h. ground (arith, ap is_ok h), λ h. ground (arith, h.0))
round_iff true true d x y z k = (λ h. ground (arith, ap is_ok h), λ h. ground (arith, h.1))
round_iff true false true x y z k = (λ h. ground (arith, ap is_ok h), λ h. ground (arith, h.2))

-- The loop of validateMounts accepts a list of mounts exactly when each mount refers to a volume
-- that exists and sets no unreviewed field, no mount is at a path taken before the loop, and no two
-- mounts are at the same path.
pub validate_mounts_from_iff :
    (where' : String) (names seen : List String) (ms : List VolumeMount)
    → (validate_mounts_from where' names seen ms ≡ ok tt) ↔ (
        All (Refers names) ms
        × All (λ m. contains seen m.mount_path ≡ false) ms
        × Distinct (paths ms))
unfolding validate_mounts_from
validate_mounts_from_iff where' names seen [] = (λ h. (tt, tt, tt), λ h. refl)
validate_mounts_from_iff where' names seen (m ∷ ms) =
    let round =
      round_iff (contains names m.name) m.other_fields (contains seen m.mount_path) _ _ _
        (validate_mounts_from where' names (m.mount_path ∷ seen) ms) in
    let rest = validate_mounts_from_iff where' names (m.mount_path ∷ seen) ms in
    let fresh = Fresh-cons m.mount_path seen ms in
    (
      λ h.
          let r = round.0 h in
          let q = rest.0 r.3 in let f = fresh.0 q.1 in (((r.0, r.1), q.0), (r.2, f.1), (f.0, q.2)),
      λ h. round.1 (h.0.0.0, h.0.0.1, h.1.0, rest.1 (h.0.1, fresh.1 (h.2.0, h.1.1), h.2.1)),
    )
