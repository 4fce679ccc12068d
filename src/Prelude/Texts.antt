-- ===== src/Prelude/Texts.antt =====
-- Texts as the list of their UTF-16 code units, with the order and the equality that `<` and `===`
-- have on JavaScript strings.
use Prim.Native.Nat.{ℕ}
use Prim.Native.Char.{code}
use Prim.Native.String.{String}
use mathlib.Core.Path.{◌≡◌, refl}
use mathlib.Core.Logic.{◌↔◌}
use mathlib.Core.Bool.{Bool, true, false, ◌&&◌, ◌||◌}
use mathlib.Core.List.{List, [], ◌∷◌}
use native.Mathlib.Omega.{arith}
use fenzit_be.Prelude.Tests.{leb, ltb, ◌==◌, if◌then◌else◌}

abbrev pub Text : Type 0
Text = List ℕ

-- The code units of an ASCII literal.
abbrev pub codes : String → Text
codes String.[] = []
codes (String.◌∷◌ c s) = code c ∷ codes s

-- `a === b`
abbrev pub text_eq : Text → Text → Bool
text_eq [] [] = true
text_eq [] (b ∷ bs) = false
text_eq (a ∷ as') [] = false
text_eq (a ∷ as') (b ∷ bs) = (a == b) && text_eq as' bs

-- `a < b`: code unit by code unit, a proper prefix first.
abbrev pub text_ltb : Text → Text → Bool
text_ltb [] [] = false
text_ltb [] (b ∷ bs) = true
text_ltb (a ∷ as') [] = false
text_ltb (a ∷ as') (b ∷ bs) = if a == b then text_ltb as' bs else ltb a b

-- `a <= b`
abbrev pub text_leb : Text → Text → Bool
text_leb a b = if text_ltb b a then false else true

pub text_eq→eq : (a b : Text) → text_eq a b ≡ true → a ≡ b
text_eq→eq [] [] h = refl
text_eq→eq [] (b ∷ bs) h = cc
text_eq→eq (a ∷ as') [] h = cc
text_eq→eq (a ∷ as') (b ∷ bs) h = ground (arith, text_eq→eq as' bs)

pub text_eq_self : (a : Text) → text_eq a a ≡ true
text_eq_self [] = refl
text_eq_self (a ∷ as') = ground (arith, text_eq_self as')

pub text_eq_iff : (a b : Text) → (text_eq a b ≡ true) ↔ (a ≡ b)
text_eq_iff a b = (text_eq→eq a b, λ e. rw e (text_eq_self b))

pub text_ltb_irrefl : (a : Text) → text_ltb a a ≡ false
text_ltb_irrefl [] = refl
text_ltb_irrefl (a ∷ as') = ground (arith, text_ltb_irrefl as')

pub text_ltb_trans :
    (a b c : Text) → text_ltb a b ≡ true → text_ltb b c ≡ true → text_ltb a c ≡ true
text_ltb_trans [] [] c h k = cc
text_ltb_trans [] (b ∷ bs) [] h k = cc
text_ltb_trans [] (b ∷ bs) (c ∷ cs) h k = refl
text_ltb_trans (a ∷ as') [] c h k = cc
text_ltb_trans (a ∷ as') (b ∷ bs) [] h k = cc
text_ltb_trans (a ∷ as') (b ∷ bs) (c ∷ cs) h k = ground (arith, text_ltb_trans as' bs cs)

pub text_ltb_asym : (a b : Text) → text_ltb a b ≡ true → text_ltb b a ≡ false
text_ltb_asym [] [] h = cc
text_ltb_asym [] (b ∷ bs) h = refl
text_ltb_asym (a ∷ as') [] h = cc
text_ltb_asym (a ∷ as') (b ∷ bs) h = ground (arith, text_ltb_asym as' bs)

-- Exactly one of `a < b`, `a === b` and `b < a`.
pub text_trichotomy : (a b : Text) → text_ltb a b ≡ false → text_ltb b a ≡ false → a ≡ b
text_trichotomy [] [] h k = refl
text_trichotomy [] (b ∷ bs) h k = cc
text_trichotomy (a ∷ as') [] h k = cc
text_trichotomy (a ∷ as') (b ∷ bs) h k = ground (arith, text_trichotomy as' bs)

pub text_leb_trans :
    (a b c : Text) → text_leb a b ≡ true → text_leb b c ≡ true → text_leb a c ≡ true
text_leb_trans [] b [] h k = refl
text_leb_trans [] b (c ∷ cs) h k = refl
text_leb_trans (a ∷ as') [] c h k = cc
text_leb_trans (a ∷ as') (b ∷ bs) [] h k = cc
text_leb_trans (a ∷ as') (b ∷ bs) (c ∷ cs) h k = ground (arith, text_leb_trans as' bs cs)

pub text_eq_sym : (s t : Text) → text_eq s t ≡ text_eq t s
text_eq_sym s t = ground (arith, text_eq_iff s t, text_eq_iff t s)

pub text_ltb-leb : (a b c : Text) → text_ltb a b ≡ true → text_leb b c ≡ true → text_ltb a c ≡ true
text_ltb-leb [] [] c h k = cc
text_ltb-leb [] (b ∷ bs) [] h k = cc
text_ltb-leb [] (b ∷ bs) (c ∷ cs) h k = refl
text_ltb-leb (a ∷ as') [] c h k = cc
text_ltb-leb (a ∷ as') (b ∷ bs) [] h k = cc
text_ltb-leb (a ∷ as') (b ∷ bs) (c ∷ cs) h k = ground (arith, text_ltb-leb as' bs cs)

pub text_eq_common : (a b e : Text) → text_eq a e ≡ true → text_eq b e ≡ true → text_eq a b ≡ true
text_eq_common a b e h k = rw (text_eq→eq a e h, text_eq→eq b e k) (text_eq_self e)

-- The white space and line ends that `trim` removes.
abbrev is_space : ℕ → Bool
is_space c =
    (leb 9 c && leb c 13)
    || (c == 32)
    || (c == 160)
    || (c == 5760)
    || (leb 8192 c && leb c 8202)
    || (c == 8232)
    || (c == 8233)
    || (c == 8239)
    || (c == 8287)
    || (c == 12288)
    || (c == 65279)

trim_start : Text → Text
trim_start [] = []
trim_start (c ∷ s) = let rest = trim_start s in if is_space c then rest else c ∷ s

trim_end : Text → Text
trim_end [] = []
trim_end (c ∷ s) = elim (trim_end s) [
  | [] ↦ if is_space c then [] else c ∷ []
  | d ∷ rest ↦ c ∷ d ∷ rest
]

unfoldable pub trim : Text → Text
unfolding trim_start trim_end
trim s = trim_end (trim_start s)
