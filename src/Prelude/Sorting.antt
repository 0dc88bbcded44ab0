-- ===== src/Prelude/Sorting.antt =====
-- Rust's `sort_by`, the order in which a `BTreeMap` is iterated, and what some item of a list satisfies.
use my_websocket_net.Prelude.Lists.{All}
use my_websocket_net.Prelude.Tests.{if◌then◌else◌, Bool-cases}
use my_websocket_net.Prelude.Text.{Text, text_ltb}
use mathlib.Core.Path.{◌≡◌}
use mathlib.Core.Logic.{◌⊎◌, inl, inr, ◌↔◌}
use mathlib.Core.Bool.{Bool, true, false}
use mathlib.Core.List.{List, [], ◌∷◌, ◌++◌}
use native.Mathlib.Omega.{arith}

module _ {A : Type 0} where
  -- `x` goes in front of the first item that is not less.
  unfoldable pub place : (A → A → Bool) → A → List A → List A
  place less x [] = x ∷ []
  place less x (y ∷ ys) = let rest = place less x ys in if less y x then y ∷ rest else x ∷ y ∷ ys

  -- A stable sort.
  unfoldable pub sort_by : (A → A → Bool) → List A → List A
  sort_by less [] = []
  sort_by less (x ∷ xs) = place less x (sort_by less xs)

  abbrev pub Any : (A → Type 0) → List A → Type 0
  Any P [] = ⊥
  Any P (x ∷ xs) = P x ⊎ Any P xs

  pub Any-append :
      (P : A → Type 0) (front back : List A) → Any P (front ++ back) ↔ (Any P front ⊎ Any P back)
  Any-append P [] back = (λ h. inr h, λ h. ground arith)
  Any-append P (x ∷ front) back =
      let rest = Any-append P front back in (λ h. ground (arith, rest), λ h. ground (arith, rest))

  Any-place :
      (P : A → Type 0) (less : A → A → Bool) (x : A) (xs : List A)
      → Any P (place less x xs) ↔ (P x ⊎ Any P xs)
  unfolding place
  Any-place P less x [] = (λ h. h, λ h. h)
  Any-place P less x (y ∷ ys) =
      let rest = Any-place P less x ys in
      elim (Bool-cases (less y x)) [
        | inl before ↦ rw before (λ h. ground (arith, rest), λ h. ground (arith, rest))
        | inr after ↦ rw after (λ h. h, λ h. h)
      ]

  -- Sorting keeps the items.
  pub Any-sort_by :
      (P : A → Type 0) (less : A → A → Bool) (xs : List A) → Any P (sort_by less xs) ↔ Any P xs
  unfolding sort_by
  Any-sort_by P less [] = (λ h. h, λ h. h)
  Any-sort_by P less (x ∷ xs) =
      let here = Any-place P less x (sort_by less xs) in
      let rest = Any-sort_by P less xs in
      (λ h. ground (arith, here, rest), λ h. ground (arith, here, rest))

  -- No item is less than the one in front of it.
  abbrev pub Sorted : (A → A → Bool) → List A → Type 0
  Sorted less [] = Unit {0}
  Sorted less (x ∷ xs) = All (λ y. less y x ≡ false) xs × Sorted less xs

  -- An order as `sort_by` expects it: `less` is asymmetric, and "not less" is transitive.
  pub record IsOrder (less : A → A → Bool) : Type 0 where
    pub asym : (x y : A) → less x y ≡ true → less y x ≡ false
    pub trans : (x y z : A) → less y x ≡ false → less z y ≡ false → less z x ≡ false

  All-weaken : (P Q : A → Type 0) (xs : List A) → ((x : A) → P x → Q x) → All P xs → All Q xs
  All-weaken P Q [] f h = tt
  All-weaken P Q (x ∷ xs) f (h, hs) = (f x h, All-weaken P Q xs f hs)

  All-place :
      (P : A → Type 0) (less : A → A → Bool) (x : A) (xs : List A)
      → P x
      → All P xs
      → All P (place less x xs)
  unfolding place
  All-place P less x [] h hs = (h, tt)
  All-place P less x (y ∷ ys) h (k, ks) = elim (Bool-cases (less y x)) [
    | inl before ↦ rw before (k, All-place P less x ys h ks)
    | inr after ↦ rw after (h, (k, ks))
  ]

  place-Sorted :
      (less : A → A → Bool)
      → IsOrder less
      → (x : A) (xs : List A) → Sorted less xs
      → Sorted less (place less x xs)
  unfolding place
  place-Sorted less o x [] s = (tt, tt)
  place-Sorted less o x (y ∷ ys) (first, s) = elim (Bool-cases (less y x)) [
    | inl before ↦ rw before (
      All-place (λ z. less z y ≡ false) less x ys (o.asym y x before) first,
      place-Sorted less o x ys s,
    )
    | inr after ↦
        rw after ((after, All-weaken _ _ ys (λ z h. o.trans x y z after h) first), (first, s))
  ]

  pub sort_by-Sorted :
      (less : A → A → Bool) → IsOrder less → (xs : List A) → Sorted less (sort_by less xs)
  unfolding sort_by
  sort_by-Sorted less o [] = tt
  sort_by-Sorted less o (x ∷ xs) =
      place-Sorted less o x (sort_by less xs) (sort_by-Sorted less o xs)

-- The entries of a map in the order of their keys.
abbrev pub in_key_order : {V : Type 0} → List (Text × V) → List (Text × V)
in_key_order entries = sort_by (λ a b. text_ltb a.0 b.0) entries
