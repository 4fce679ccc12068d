-- ===== src/Prelude/Lists.antt =====
-- Lists measured by native numbers, searched by Boolean tests, and predicates by recursion.
use Prim.Native.Nat.{ℕ, zero, suc, ◌+◌}
use mathlib.Core.Path.{◌≡◌, refl}
use mathlib.Core.Logic.{inl, inr}
use mathlib.Core.Bool.{Bool, true, false, ◌||◌, ◌&&◌}
use mathlib.Core.Option.{Option, none, some}
use mathlib.Core.List.{List, [], ◌∷◌, ◌++◌, map}
use native.Mathlib.Omega.{arith}
use fenzit_be.Prelude.Tests.{if◌then◌else◌, Bool-cases}

module _ {ℓ} {A : Type ℓ} where
  abbrev pub length : List A → ℕ
  length [] = 0
  length (x ∷ xs) = suc (length xs)

  -- `xs.find(p)`
  abbrev pub find : (A → Bool) → List A → Option A
  find p [] = none
  find p (x ∷ xs) = if p x then some x else find p xs

  -- `xs.filter(p)`
  abbrev pub keep : (A → Bool) → List A → List A
  keep p [] = []
  keep p (x ∷ xs) = if p x then x ∷ keep p xs else keep p xs

  -- `xs.some(p)`
  abbrev pub exists : (A → Bool) → List A → Bool
  exists p [] = false
  exists p (x ∷ xs) = p x || exists p xs

  -- `xs.every(p)`
  abbrev pub all_of : (A → Bool) → List A → Bool
  all_of p [] = true
  all_of p (x ∷ xs) = p x && all_of p xs

  abbrev pub head? : List A → Option A
  head? [] = none
  head? (x ∷ xs) = some x

  abbrev pub get_elem? : List A → ℕ → Option A
  get_elem? [] i = none
  get_elem? (x ∷ xs) zero = some x
  get_elem? (x ∷ xs) (suc i) = get_elem? xs i

  -- The elements of a list, as a family that keeps the position.
  pub data In (a : A) : List A → Type ℓ where
    here : {xs : List A} → In a (a ∷ xs)
    there : {x : A} {xs : List A} → In a xs → In a (x ∷ xs)

  pub length-append : (xs ys : List A) → length (xs ++ ys) ≡ length xs + length ys
  length-append [] ys = omega arith
  length-append (x ∷ xs) ys = omega (arith, length-append xs ys)

  pub find-eq-some :
      (p : A → Bool) (xs : List A) (a : A) → find p xs ≡ some a → (p a ≡ true) × In a xs
  find-eq-some p [] a h = cc
  find-eq-some p (x ∷ xs) a h = elim (Bool-cases (p x)) [
    | inl e ↦
        let same : some x ≡ some a = rw e at h in
        let eq : x ≡ a = cc in (rw (← eq) e, rw (← eq) here)
    | inr e ↦ let rest = find-eq-some p xs a (rw e at h) in (rest.0, there rest.1)
  ]

  -- Nothing is found exactly when every element fails the test.
  pub find-eq-none : (p : A → Bool) (xs : List A) {a : A} → find p xs ≡ none → In a xs → p a ≡ false
  find-eq-none p [] h m = elim m [ ]
  find-eq-none p (x ∷ xs) h here = ground arith
  find-eq-none p (x ∷ xs) h (there m) = find-eq-none p xs (ground arith) m

  pub exists-In : (p : A → Bool) {a : A} {xs : List A} → In a xs → p a ≡ true → exists p xs ≡ true
  exists-In p here h = ground arith
  exists-In p {xs = x ∷ xs} (there m) h = ground (arith, exists-In p m h)

  pub exists-witness :
      (p : A → Bool) (xs : List A) → exists p xs ≡ true → (a : A) × In a xs × (p a ≡ true)
  exists-witness p [] h = cc
  exists-witness p (x ∷ xs) h = elim (Bool-cases (p x)) [
    | inl e ↦ (x, here, e)
    | inr e ↦ let (a, m, q) = exists-witness p xs (ground arith) in (a, there m, q)
  ]

  pub all_of-In : (p : A → Bool) {a : A} {xs : List A} → In a xs → all_of p xs ≡ true → p a ≡ true
  all_of-In p here h = ground arith
  all_of-In p (there m) h = all_of-In p m (ground arith)

  -- Filters that agree on the elements keep the same elements, and so do maps over them.
  pub map-keep_ext {κ} :
      {B : Type κ} (f g : A → B) (p q : A → Bool) (xs : List A)
      → ((a : A) → In a xs → p a ≡ q a)
      → ((a : A) → In a xs → q a ≡ true → f a ≡ g a)
      → map f (keep p xs) ≡ map g (keep q xs)
  map-keep_ext f g p q [] same agree = refl
  map-keep_ext f g p q (x ∷ xs) same agree =
      let rest = map-keep_ext f g p q xs (λ a m. same a (there m)) (λ a m h. agree a (there m) h) in
      elim (Bool-cases (q x)) [
        | inl e ↦ rw (same x here, e, agree x here e, rest)
        | inr e ↦ rw (same x here, e, rest)
      ]

module _ {ℓ κ} {A : Type ℓ} (P : A → Type κ) where
  abbrev pub All : List A → Type κ
  All [] = Unit
  All (x ∷ xs) = P x × All xs

  pub All-append : (xs ys : List A) → All xs → All ys → All (xs ++ ys)
  All-append [] ys h k = k
  All-append (x ∷ xs) ys (p, h) k = (p, All-append xs ys h k)

  pub All-in : {a : A} {xs : List A} → In a xs → All xs → P a
  All-in here h = h.0
  All-in (there m) h = All-in m h.1
