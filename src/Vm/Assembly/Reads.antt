-- ===== src/Vm/Assembly/Reads.antt =====
-- What the reads of `VmScriptReader` (crates/http-api/src/support.rs) give on assembled bytes.
use mathlib.Core.List.{append_assoc}
use explorer_backend.Base.{
  Bool, List, [], ap, arith, drop, false, get_elem?, if◌then◌else◌, is_empty, leb, length,
  length-append, ltb, refl, some, subst, suc, sym, take, true, zero, ℕ, ◌%◌, ◌*◌, ◌++◌, ◌+◌, ◌-◌,
  ◌/◌, ◌<◌, ◌^◌, ◌∙◌, ◌∷◌, ◌≡◌, ◌≤◌,
}
use explorer_backend.Base.Int.{negsuc, pos, ℤ}
use explorer_backend.Vm.Reader.{
  Reads, VmScriptReader, advance, as_i16, at_most, byte_at, ok, pure, read_bytes, read_i16,
  read_marked, read_u16, read_u8, read_var, ◌>>=◌,
}
use explorer_backend.Vm.Assembly.{FitsI16, i16_bytes, u16_bytes, var_bytes}

-- What is left to read.
abbrev pub At : VmScriptReader → List ℕ → Type 0
At r post = drop r.position r.bytes ≡ post

-- A read that takes the bytes `xs`, when more bytes follow, for the value `v`.
abbrev pub Gives {ℓ} : {A : Type ℓ} → Reads A → List ℕ → A → Type ℓ
Gives m xs v =
    (r : VmScriptReader) (post : List ℕ)
    → is_empty post ≡ false
    → At r (xs ++ post)
    → m r ≡ ok (v, advance (length xs) r)

drop_same : (a b : ℕ) (xs : List ℕ) → a ≡ b → drop a xs ≡ drop b xs
drop_same a b xs e = ap (λ k. drop k xs) e

drop-nil : (n : ℕ) → drop {A = ℕ} n [] ≡ []
drop-nil zero = refl
drop-nil (suc n) = refl

drop-drop : (n m : ℕ) (xs : List ℕ) → drop (n + m) xs ≡ drop m (drop n xs)
drop-drop zero m xs = drop_same (0 + m) m xs (omega arith)
drop-drop (suc n) m [] = drop-nil (suc n + m) ∙ sym (drop-nil m)
drop-drop (suc n) m (x ∷ xs) =
    drop_same (suc n + m) (suc (n + m)) (x ∷ xs) (omega arith) ∙ drop-drop n m xs

drop-length-append : (ys post : List ℕ) → drop (length ys) (ys ++ post) ≡ post
drop-length-append [] post = refl
drop-length-append (y ∷ ys) post = drop-length-append ys post

length-drop : (n : ℕ) (xs : List ℕ) → length (drop n xs) ≡ length xs - n
length-drop zero xs = omega arith
length-drop (suc n) [] = omega arith
length-drop (suc n) (x ∷ xs) = omega (arith, length-drop n xs)

pub get_elem?-drop :
    (n : ℕ) (xs post : List ℕ) (b : ℕ) → drop n xs ≡ b ∷ post → get_elem? xs n ≡ some b
get_elem?-drop zero [] post b h = cc
get_elem?-drop zero (x ∷ xs) post b h = cc
get_elem?-drop (suc n) [] post b h = cc
get_elem?-drop (suc n) (x ∷ xs) post b h = get_elem?-drop n xs post b h

pub drop-append :
    (n : ℕ) (xs ys post : List ℕ) → drop n xs ≡ ys ++ post → drop (n + length ys) xs ≡ post
drop-append n xs ys post h =
    drop-drop n (length ys) xs ∙ ap (drop (length ys)) h ∙ drop-length-append ys post

length-not_empty : (xs : List ℕ) → is_empty xs ≡ false → 0 < length xs
length-not_empty xs h = ground arith

pub drop-length :
    (n : ℕ) (xs ys post : List ℕ)
    → is_empty post ≡ false
    → drop n xs ≡ ys ++ post
    → n + length ys < length xs
drop-length n xs ys post h e =
    omega (arith, length-drop n xs, ap length e, length-append ys post, length-not_empty post h)

advance_zero : (r : VmScriptReader) → advance 0 r ≡ r
advance_zero r = ap (λ n. record r { position = n }) (omega arith)

advance_add : (r : VmScriptReader) (m n : ℕ) → advance n (advance m r) ≡ advance (m + n) r
advance_add r m n = ap (λ k. record r { position = k }) (omega arith)

pub append-not_empty : (xs ys : List ℕ) → is_empty ys ≡ false → is_empty (xs ++ ys) ≡ false
append-not_empty [] ys h = h
append-not_empty (x ∷ xs) ys h = refl

pub read_u8-Gives : (b : ℕ) → Gives read_u8 (b ∷ []) b
unfolding read_u8
read_u8-Gives b r post h e = ap (λ o. byte_at o r) (get_elem?-drop r.position r.bytes post b e)

pub pure-Gives {ℓ} : {A : Type ℓ} (a : A) → Gives (pure a) [] a
pure-Gives a r post h e = ap (λ s. ok (a, s)) (sym (advance_zero r))

pub >>=-Gives {ℓ κ} :
    {A : Type ℓ} {B : Type κ} (m : Reads A) (f : A → Reads B) (xs ys : List ℕ) (a : A) (b : B)
    → Gives m xs a
    → Gives (f a) ys b
    → Gives (m >>= f) (xs ++ ys) b
>>=-Gives m f xs ys a b h k r post more e =
    let e' = e ∙ append_assoc xs ys post in
    rw (h r (ys ++ post) (append-not_empty ys post more) e') (
      k (advance (length xs) r) post more (drop-append r.position r.bytes xs (ys ++ post) e')
      ∙ ap (λ s. ok (b, s))
          (advance_add r (length xs) (length ys)
            ∙ ap (λ n. advance n r) (sym (length-append xs ys))))

-- A last step that only computes.
pub then_pure {ℓ κ} :
    {A : Type ℓ} {B : Type κ} (m : Reads A) (f : A → B) (xs : List ℕ) (a : A)
    → Gives m xs a
    → Gives (m >>= λ x. pure (f x)) xs (f a)
then_pure m f xs a h r post more e = rw (h r post more e) refl

ltb-false : (a b : ℕ) → b ≤ a → ltb a b ≡ false
ltb-false a b h = ground arith

pub Gives-same {ℓ} :
    {A : Type ℓ} (m : Reads A) (xs : List ℕ) (v w : A) → v ≡ w → Gives m xs v → Gives m xs w
Gives-same m xs v w e h = subst (Gives m xs) e h

leb-false : (a b : ℕ) → b < a → leb a b ≡ false
leb-false a b h = ground arith

pub read_u16-Gives : (n : ℕ) → Gives read_u16 (u16_bytes n) n
unfolding read_u16
read_u16-Gives n = Gives-same _ (u16_bytes n) (n % 256 + n / 256 * 2 ^ 8) n (omega arith) (
    >>=-Gives _ _ ((n % 256) ∷ []) ((n / 256) ∷ []) (n % 256) _ (read_u8-Gives (n % 256))
      (then_pure _ _ ((n / 256) ∷ []) (n / 256) (read_u8-Gives (n / 256))))

pub read_i16-Gives : (offset : ℤ) → FitsI16 offset → Gives read_i16 (i16_bytes offset) offset
unfolding read_i16
read_i16-Gives (pos n) h =
    Gives-same _ (u16_bytes n) (as_i16 n) (pos n) (ground arith)
      (then_pure _ as_i16 (u16_bytes n) n (read_u16-Gives n))
read_i16-Gives (negsuc n) h =
    Gives-same _ (u16_bytes (65535 - n)) (as_i16 (65535 - n)) (negsuc n) (ground arith)
      (then_pure _ as_i16 (u16_bytes (65535 - n)) (65535 - n) (read_u16-Gives (65535 - n)))

at_most-Gives : (n : ℕ) → n ≤ 0xffff → Gives (at_most 0xffff n) [] n
at_most-Gives n h r post more e = rw (ltb-false 0xffff n h) (pure-Gives n r post more e)

short_marker : (n : ℕ) → n < 0xfd → Gives (read_marked n) [] n
short_marker n h r post more e = plain n r h ∙ pure-Gives n r post more e
  where
    plain : (n : ℕ) (r : VmScriptReader) → n < 0xfd → read_marked n r ≡ ok (n, r)
    plain n r h = ground arith

pub read_var-Gives : (n : ℕ) → n ≤ 0xffff → Gives (read_var 0xffff) (var_bytes n) n
unfolding read_var
read_var-Gives n h = go (ltb n 0xfd) refl
  where
    go :
        (b : Bool)
        → ltb n 0xfd ≡ b
        → Gives (read_var 0xffff) (if b then n ∷ [] else 0xfd ∷ u16_bytes n) n
    go true e =
        >>=-Gives _ _ (n ∷ []) [] n n (read_u8-Gives n)
          (>>=-Gives _ _ [] [] n n (short_marker n (ground arith)) (at_most-Gives n h))
    go false e =
        >>=-Gives _ _ (0xfd ∷ []) (u16_bytes n) 0xfd n (read_u8-Gives 0xfd)
          (>>=-Gives _ _ (u16_bytes n) [] n n (read_u16-Gives n) (at_most-Gives n h))

take-length : (xs ys : List ℕ) → take (length xs) (xs ++ ys) ≡ xs
take-length [] ys = refl
take-length (x ∷ xs) ys = ap (◌∷◌ x) (take-length xs ys)

pub read_bytes-Gives : (xs : List ℕ) → Gives (read_bytes (length xs)) xs xs
unfolding read_bytes
read_bytes-Gives xs r post more e =
    rw
      (
        leb-false (length r.bytes) (r.position + length xs)
            (drop-length r.position r.bytes xs post more e),
        e,
      )
      (ap (λ b. ok (b, advance (length xs) r)) (take-length xs post))
