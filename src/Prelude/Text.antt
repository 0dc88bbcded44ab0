-- ===== src/Prelude/Text.antt =====
-- Rust's `str` as the list of its UTF-8 bytes, where the code looks into it: literals, comparison, the
-- order of `BTreeMap<String, _>`, and the tests of the standard library.
use Prim.Native.Char.{code}
use Prim.Native.String.{String}
use my_websocket_net.Prelude.Tests.{ltb, ◌==◌, if◌then◌else◌, Bool-cases}
use my_websocket_net.Prelude.Map.{Eq}
use Prim.Native.Nat.{ℕ}
use mathlib.Core.Path.{◌≡◌, refl}
use mathlib.Core.Logic.{◌↔◌, inl, inr}
use mathlib.Core.Bool.{Bool, true, false, ◌&&◌}
use mathlib.Core.List.{List, [], ◌∷◌}
use native.Mathlib.Omega.{arith}

abbrev pub Text : Type 0
Text = List ℕ

-- A literal; the ones of the sources are ASCII.
abbrev pub text : String → Text
text String.[] = []
text (String.◌∷◌ c s) = code c ∷ text s

unfoldable pub same_text : Text → Text → Bool
same_text [] [] = true
same_text (x ∷ xs) (y ∷ ys) = x == y && same_text xs ys
same_text _ _ = false

pub same_text_refl : (s : Text) → same_text s s ≡ true
unfolding same_text
same_text_refl [] = refl
same_text_refl (x ∷ xs) = ground (arith, same_text_refl xs)

pub same_text_sound : (s t : Text) → same_text s t ≡ true → s ≡ t
unfolding same_text
same_text_sound [] [] h = refl
same_text_sound [] (y ∷ ys) h = cc
same_text_sound (x ∷ xs) [] h = cc
same_text_sound (x ∷ xs) (y ∷ ys) h = ground (arith, same_text_sound xs ys)

pub same_text_iff : (s t : Text) → (same_text s t ≡ true) ↔ (s ≡ t)
same_text_iff s t = (same_text_sound s t, λ e. rw e (same_text_refl t))

instance abbrev pub text_eq : Eq Text
text_eq = record { same = same_text; same_iff = same_text_iff }

-- `<` on byte strings.
unfoldable pub text_ltb : Text → Text → Bool
text_ltb _ [] = false
text_ltb [] (y ∷ ys) = true
text_ltb (x ∷ xs) (y ∷ ys) = if x == y then text_ltb xs ys else ltb x y

pub text_ltb_irrefl : (s : Text) → text_ltb s s ≡ false
unfolding text_ltb
text_ltb_irrefl [] = refl
text_ltb_irrefl (x ∷ xs) = ground (arith, text_ltb_irrefl xs)

pub text_ltb_trans :
    (s t u : Text) → text_ltb s t ≡ true → text_ltb t u ≡ true → text_ltb s u ≡ true
unfolding text_ltb
text_ltb_trans s t [] h k = cc
text_ltb_trans s [] (z ∷ zs) h k = cc
text_ltb_trans [] (y ∷ ys) (z ∷ zs) h k = refl
text_ltb_trans (x ∷ xs) (y ∷ ys) (z ∷ zs) h k = ground (arith, text_ltb_trans xs ys zs)

pub text_ltb-total :
    (s t : Text) → text_ltb s t ≡ false → same_text s t ≡ false → text_ltb t s ≡ true
unfolding text_ltb same_text
text_ltb-total [] [] h k = cc
text_ltb-total (x ∷ xs) [] h k = refl
text_ltb-total [] (y ∷ ys) h k = cc
text_ltb-total (x ∷ xs) (y ∷ ys) h k = ground (arith, text_ltb-total xs ys)

pub text_ltb-asym : (s t : Text) → text_ltb s t ≡ true → text_ltb t s ≡ false
text_ltb-asym s t h = ground (arith, h, text_ltb_trans s t s, text_ltb_irrefl s)

-- "Not less" is transitive.
pub text_ltb-le_trans :
    (s t u : Text) → text_ltb t s ≡ false → text_ltb u t ≡ false → text_ltb u s ≡ false
text_ltb-le_trans s t u h k = elim (Bool-cases (same_text t s)) [
  | inl same ↦ ground (arith, k, (same_text_iff t s).0 same)
  | inr apart ↦ ground (arith, k, text_ltb_trans u s t, text_ltb-total t s h apart)
]
