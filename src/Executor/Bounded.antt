-- ===== src/Executor/Bounded.antt =====
-- What the bounded log writer keeps of a stream.
use sudo_service.Prelude.{
  ℕ, ◌-◌, List, [], ◌∷◌, ◌++◌, ◌≡◌, ◌≤◌, refl, sym, ap, ◌∙◌, subst, zero, suc, arith, length, take,
  length-append, length-take, ltb, Bool, true, false, if◌then◌else◌,
}
use sudo_service.Types.{max_output_bytes}
use sudo_service.Executor.Output.{BoundedLogWriter, write_chunk, write_chunks, empty_writer}

-- The stream that the chunks make up.
abbrev pub concat : List (List ℕ) → List ℕ
concat [] = []
concat (p ∷ ps) = p ++ concat ps

-- The writer holds what a stream leaves.
append_assoc : (xs ys zs : List ℕ) → (xs ++ ys) ++ zs ≡ xs ++ (ys ++ zs)
append_assoc [] ys zs = refl
append_assoc (x ∷ xs) ys zs = ap (◌∷◌ x) (append_assoc xs ys zs)

abbrev Holds : List ℕ → BoundedLogWriter → Type 0
Holds xs w = (w.retained ≡ take max_output_bytes xs) × (w.total ≡ length xs)

nothing-left : (n : ℕ) → 0 - n ≡ 0
nothing-left n = omega arith

all-left : (n : ℕ) → n - 0 ≡ n
all-left n = omega arith

both-left : (n k : ℕ) → suc n - suc k ≡ n - k
both-left n k = omega arith

some-left : (k : ℕ) → ltb 0 (suc k) ≡ true
some-left k = ground arith

take-append : (n : ℕ) (xs ys : List ℕ) → take n (xs ++ ys) ≡ take n xs ++ take (n - length xs) ys
take-append zero xs ys = sym (ap (λ k. take k ys) (nothing-left (length xs)))
take-append (suc n) [] ys = sym (ap (λ k. take k ys) (all-left (suc n)))
take-append (suc n) (x ∷ xs) ys =
    ap (◌∷◌ x)
      (take-append n xs ys ∙ sym (ap (λ k. take n xs ++ take k ys) (both-left n (length xs))))

append-nil : (xs : List ℕ) → xs ++ [] ≡ xs
append-nil [] = refl
append-nil (x ∷ xs) = ap (◌∷◌ x) (append-nil xs)

take_long : (n : ℕ) (xs : List ℕ) → length xs ≤ n → take (length xs) xs ≡ take n xs
take_long zero [] l = refl
take_long (suc n) [] l = refl
take_long zero (x ∷ xs) l = absurd (omega (arith, l))
take_long (suc n) (x ∷ xs) l = ap (◌∷◌ x) (take_long n xs (omega (arith, l)))

-- What one Write appends, where `k` bytes still fit.
unfoldable kept : (k : ℕ) → List ℕ → List ℕ → List ℕ
kept k r p = if ltb 0 k then r ++ take (if ltb (length p) k then length p else k) p else r

kept-take : (k : ℕ) (r p : List ℕ) → kept k r p ≡ r ++ take k p
unfolding kept
kept-take zero r p = sym (append-nil r)
kept-take (suc k) r p =
    ap (λ b. if b then r ++ take (if ltb (length p) (suc k) then length p else suc k) p else r)
      (some-left k)
    ∙ ap (r ++◌) (by_test (ltb (length p) (suc k)) refl)
  where
    by_test :
        (b : Bool)
        → ltb (length p) (suc k) ≡ b
        → take (if b then length p else suc k) p ≡ take (suc k) p
    by_test true e = take_long (suc k) p (ground arith)
    by_test false e = refl

room : (m : ℕ) (xs r : List ℕ) → r ≡ take m xs → m - length r ≡ m - length xs
room m xs r e = omega (arith, ap length e, length-take m xs)

kept-Holds : (m : ℕ) (xs p r : List ℕ) → r ≡ take m xs → kept (m - length r) r p ≡ take m (xs ++ p)
kept-Holds m xs p r e =
    kept-take (m - length r) r p
    ∙ (ap (λ k. r ++ take k p) (room m xs r e)
        ∙ (ap (λ q. q ++ take (m - length xs) p) e ∙ sym (take-append m xs p)))

write_chunk-Holds :
    (xs p : List ℕ) (w : BoundedLogWriter) → Holds xs w → Holds (xs ++ p) (write_chunk w p)
unfolding write_chunk kept
write_chunk-Holds xs p w h =
    (kept-Holds max_output_bytes xs p w.retained h.0, omega (arith, h.1, length-append xs p))

write_chunks-Holds :
    (ps : List (List ℕ)) (xs : List ℕ) (w : BoundedLogWriter)
    → Holds xs w
    → Holds (xs ++ concat ps) (write_chunks w ps)
unfolding write_chunks
write_chunks-Holds [] xs w h = subst (λ ys. Holds ys w) (sym (append-nil xs)) h
write_chunks-Holds (p ∷ ps) xs w h =
    subst (λ ys. Holds ys (write_chunks (write_chunk w p) ps)) (append_assoc xs p (concat ps))
      (write_chunks-Holds ps (xs ++ p) (write_chunk w p) (write_chunk-Holds xs p w h))

-- However a log stream is cut into chunks, the bounded writer retains exactly its first
-- MaxOutputBytes bytes and counts all of its bytes.
pub write_chunks-take :
    (ps : List (List ℕ))
    → ((write_chunks empty_writer ps).retained ≡ take max_output_bytes (concat ps))
      × ((write_chunks empty_writer ps).total ≡ length (concat ps))
write_chunks-take ps = write_chunks-Holds ps [] empty_writer (refl, refl)
