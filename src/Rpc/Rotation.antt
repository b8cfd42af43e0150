-- ===== src/Rpc/Rotation.antt =====
-- The endpoints in the order in which a round of `try_endpoints_once` (crates/rpc/src/lib.rs) asks them.
use mathlib.Core.Option.{some-injective}
use native.Mathlib.Nat.{mod-lt, mod-eq_of_lt, mod-add-mod, add-mod_right}
use explorer_backend.Base.{
  Bool-cases, List, [], ap, arith, drop, get_elem?, inl, inr, length, length-drop, ltb, refl, some,
  suc, sym, take, zero, ℕ, ◌%◌, ◌++◌, ◌+◌, ◌-◌, ◌<◌, ◌∙◌, ◌∷◌, ◌≡◌,
}

module _ {A : Type 0} where
  -- The list from an index on, and then its front.
  pub rotation : ℕ → List A → List A
  rotation s xs = drop s xs ++ take s xs

  get_elem?-drop : (s i : ℕ) (xs : List A) → get_elem? (drop s xs) i ≡ get_elem? xs (s + i)
  get_elem?-drop zero i xs = ap (get_elem? xs) (omega arith)
  get_elem?-drop (suc s) i [] = refl
  get_elem?-drop (suc s) i (x ∷ xs) = get_elem?-drop s i xs ∙ ap (get_elem? (x ∷ xs)) (suc_plus s i)
    where
      suc_plus : (a b : ℕ) → suc (a + b) ≡ suc a + b
      suc_plus a b = omega arith

  get_elem?-take : (s i : ℕ) (xs : List A) → i < s → get_elem? (take s xs) i ≡ get_elem? xs i
  get_elem?-take zero i xs h = absurd (omega (arith, h))
  get_elem?-take (suc s) i [] h = refl
  get_elem?-take (suc s) zero (x ∷ xs) h = refl
  get_elem?-take (suc s) (suc i) (x ∷ xs) h = get_elem?-take s i xs (omega (arith, h))

  get_elem?-append_left :
      (xs ys : List A) (i : ℕ) → i < length xs → get_elem? (xs ++ ys) i ≡ get_elem? xs i
  get_elem?-append_left [] ys i h = absurd (omega (arith, h))
  get_elem?-append_left (x ∷ xs) ys zero h = refl
  get_elem?-append_left (x ∷ xs) ys (suc i) h = get_elem?-append_left xs ys i (omega (arith, h))

  get_elem?-append_right :
      (xs ys : List A) (i : ℕ) → get_elem? (xs ++ ys) (length xs + i) ≡ get_elem? ys i
  get_elem?-append_right [] ys i = ap (get_elem? ys) (omega arith)
  get_elem?-append_right (x ∷ xs) ys i =
      ap (get_elem? (x ∷ (xs ++ ys))) (suc_plus (length xs) i) ∙ get_elem?-append_right xs ys i
    where
      suc_plus : (a b : ℕ) → suc a + b ≡ suc (a + b)
      suc_plus a b = omega arith

  -- Counting up modulo the length goes through the rotation.
  pub get_elem?-rotation :
      (start o : ℕ) (xs : List A)
      → o < length xs
      → get_elem? xs ((start + o) % length xs) ≡ get_elem? (rotation (start % length xs) xs) o
  unfolding rotation
  get_elem?-rotation start o xs h =
      let n = length xs in
      let s = start % n in
      let below : s < n = mod-lt start (omega (arith, h)) in
      let cut = length-drop s xs in
      elim (Bool-cases (ltb (s + o) n)) [
        | inl front ↦
            let at : (start + o) % n ≡ s + o =
              sym (mod-add-mod start n o) ∙ mod-eq_of_lt (ground (arith, front)) in
            ap (get_elem? xs) at
            ∙ sym (get_elem?-drop s o xs)
            ∙ sym (get_elem?-append_left (drop s xs) (take s xs) o (ground (arith, front, cut)))
        | inr back ↦
            let round : s + o ≡ s + o - n + n = ground (arith, back) in
            let at : (start + o) % n ≡ s + o - n =
              sym (mod-add-mod start n o)
              ∙ ap (λ t. t % n) round
              ∙ add-mod_right (s + o - n) n
              ∙ mod-eq_of_lt (omega (arith, below, h)) in
            let index : length (drop s xs) + (s + o - n) ≡ o = ground (arith, back, cut, below) in
            ap (get_elem? xs) at
            ∙ sym (get_elem?-take s (s + o - n) xs (omega (arith, below, h)))
            ∙ sym (get_elem?-append_right (drop s xs) (take s xs) (s + o - n))
            ∙ ap (get_elem? (drop s xs ++ take s xs)) index
      ]

  pub drop-get_elem? :
      (o : ℕ) (x : A) (xs : List A) → get_elem? xs o ≡ some x → drop o xs ≡ x ∷ drop (suc o) xs
  drop-get_elem? o x [] e = absurd (cc e)
  drop-get_elem? zero x (y ∷ xs) e = ap (λ z. z ∷ xs) (some-injective _ _ e)
  drop-get_elem? (suc o) x (y ∷ xs) e = drop-get_elem? o x xs e
