-- ===== src/Access/Laws.antt =====
-- What the two guards of src/common/guards let through.
use fenzit_be.Access.Permissions.{permissions_for, has, Permission}
use fenzit_be.Access.Guards.{
  allowed, judge, judge_listed, is_usable, RequestUser, can_activate, Route,
}
use fenzit_be.Prelude.{
  none, if◌then◌else◌, here, ◌↔◌, false, ap, Option, some, ◌⊎◌, inr, exists-In, sym, ◌∙◌,
  exists-witness, inl, arith, true, ◌∷◌, Bool-cases, ◌≡◌, [], exists, find, get_or, In, is_some,
  List, Bool, refl,
}

-- A permission that the route lists and that the user may use here.
abbrev pub MayUse : Route → RequestUser → Type 0
MayUse route user = (p : Permission) × In p (get_or route.can []) × (is_usable user p ≡ true)

is_some-find : {A : Type 0} (q : A → Bool) (xs : List A) → is_some (find q xs) ≡ exists q xs
is_some-find q [] = refl
is_some-find q (x ∷ xs) = ground (arith, is_some-find q xs)

judge_listed-allowed :
    (user : RequestUser) (can : Option (List Permission))
    → exists (is_usable user) (get_or can []) ≡ true
    → judge_listed user can ≡ allowed
unfolding judge_listed judge
judge_listed-allowed user none h = cc
judge_listed-allowed user (some []) h = cc
judge_listed-allowed user (some (p ∷ required)) h =
    rw (judge_listed, judge, is_some-find (is_usable user) (p ∷ required), h) refl

judge_listed-refused :
    (user : RequestUser) (can : Option (List Permission))
    → exists (is_usable user) (get_or can []) ≡ false
    → ¬ (judge_listed user can ≡ allowed)
unfolding judge_listed judge
judge_listed-refused user none h k = cc
judge_listed-refused user (some []) h k = cc
judge_listed-refused user (some (p ∷ required)) h k =
    ground (arith, is_some-find (is_usable user) (p ∷ required))

-- What lets a signed-in user through.
abbrev pub MayPass : Route → RequestUser → Type 0
MayPass route user = (route.is_public ≡ true) ⊎ ((route.any_member ≡ true) ⊎ MayUse route user)

can_activate-MayPass :
    (route : Route) (user : RequestUser)
    → can_activate route (some user) ≡ allowed
    → MayPass route user
unfolding can_activate
can_activate-MayPass route user h = elim (Bool-cases route.is_public) [
  | inl e ↦ inl e
  | inr e ↦ elim (Bool-cases route.any_member) [
    | inl f ↦ inr (inl f)
    | inr f ↦ elim (Bool-cases (exists (is_usable user) (get_or route.can []))) [
      | inl g ↦
          let (p, m, q) = exists-witness (is_usable user) (get_or route.can []) g in
          inr (inr (p, m, q))
      | inr g ↦ absurd (judge_listed-refused user route.can g (ground arith))
    ]
  ]
]

MayPass-can_activate :
    (route : Route) (user : RequestUser)
    → MayPass route user
    → can_activate route (some user) ≡ allowed
unfolding can_activate
MayPass-can_activate route user (inl e) = ground arith
MayPass-can_activate route user (inr (inl f)) = ground arith
MayPass-can_activate route user (inr (inr (p, m, q))) =
    ground (arith, judge_listed-allowed user route.can (exists-In (is_usable user) m q))

-- The guard of permissions allows a signed-in user exactly on the routes that are public, that are for
-- any member, and that list a permission which the user's role holds and which either needs no company
-- or finds one; a route that says nothing is closed.
pub can_activate_iff :
    (route : Route) (user : RequestUser)
    → (can_activate route (some user) ≡ allowed) ↔ MayPass route user
can_activate_iff route user = (can_activate-MayPass route user, MayPass-can_activate route user)

same_elements :
    {A : Type 0} (q : A → Bool) (xs ys : List A)
    → ((a : A) → In a xs → In a ys)
    → ((a : A) → In a ys → In a xs)
    → exists q xs ≡ exists q ys
same_elements q xs ys to from = elim (Bool-cases (exists q xs)) [
  | inl e ↦ let (a, m, h) = exists-witness q xs e in e ∙ sym (exists-In q (to a m) h)
  | inr e ↦ elim (Bool-cases (exists q ys)) [
    | inr f ↦ e ∙ sym f
    | inl f ↦
        let (a, m, h) = exists-witness q ys f in absurd (ground (arith, exists-In q (from a m) h))
  ]
]

judge_listed-order :
    (user : RequestUser) (xs ys : List Permission)
    → ((p : Permission) → In p xs → In p ys)
    → ((p : Permission) → In p ys → In p xs)
    → judge_listed user (some xs) ≡ judge_listed user (some ys)
unfolding judge_listed judge
judge_listed-order user [] [] to from = refl
judge_listed-order user [] (y ∷ ys) to from = elim (from y here) [ ]
judge_listed-order user (x ∷ xs) [] to from = elim (to x here) [ ]
judge_listed-order user (x ∷ xs) (y ∷ ys) to from =
    rw
      (
        judge_listed,
        judge,
        is_some-find (is_usable user) (x ∷ xs),
        is_some-find (is_usable user) (y ∷ ys),
        same_elements (is_usable user) (x ∷ xs) (y ∷ ys) to from,
        same_elements (has (permissions_for user.role)) (x ∷ xs) (y ∷ ys) to from,
      )
      refl

-- The verdict does not depend on the order or the repetition of the permissions that a route lists.
pub can_activate-order :
    (route : Route) (user : Option RequestUser) (xs ys : List Permission)
    → ((p : Permission) → In p xs → In p ys)
    → ((p : Permission) → In p ys → In p xs)
    → can_activate (record route { can = some xs }) user
      ≡ can_activate (record route { can = some ys }) user
unfolding can_activate
can_activate-order route none xs ys to from = refl
can_activate-order route (some user) xs ys to from =
    ap (λ v. if route.is_public then allowed else if route.any_member then allowed else v)
      (judge_listed-order user xs ys to from)
