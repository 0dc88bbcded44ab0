-- ===== src/Prelude/Map.antt =====
-- Rust's `HashMap`, or a `BTreeMap` whose order is not looked at: entries with keys that a Boolean test
-- tells apart.
use my_websocket_net.Prelude.Tests.{◌==◌, ==_iff, if◌then◌else◌}
use my_websocket_net.Prelude.Lists.{length}
use Prim.Native.Nat.{ℕ, suc}
use Prim.Native.String.{String}
use text.Mathlib.Text.{◌==◌ as str_eq}
use text.Mathlib.TextEquality.{eq_iff}
use mathlib.Core.Path.{◌≡◌, refl, ap}
use mathlib.Core.Logic.{◌↔◌}
use mathlib.Core.Bool.{Bool, true, ◌&&◌}
use mathlib.Core.Option.{Option, none, some}
use mathlib.Core.List.{List, [], ◌∷◌}
use native.Mathlib.Omega.{arith}

pub record Eq (A : Type 0) : Type 0 where
  pub same : A → A → Bool
  pub same_iff : (a b : A) → (same a b ≡ true) ↔ (a ≡ b)

instance abbrev pub nat_eq : Eq ℕ
nat_eq = record { same = ◌==◌; same_iff = ==_iff }

instance abbrev pub string_eq : Eq String
string_eq = record { same = str_eq; same_iff = eq_iff }

abbrev pub pair_same : {A B : Type 0} ⦃a : Eq A⦄ ⦃b : Eq B⦄ → A × B → A × B → Bool
pair_same ⦃a⦄ ⦃b⦄ x y = a.same x.0 y.0 && b.same x.1 y.1

pub pair_same_iff :
    {A B : Type 0} ⦃a : Eq A⦄ ⦃b : Eq B⦄ (x y : A × B)
    → (pair_same ⦃a = a⦄ ⦃b = b⦄ x y ≡ true) ↔ (x ≡ y)
pair_same_iff ⦃a⦄ ⦃b⦄ x y = (
  λ h. ground (arith, a.same_iff x.0 y.0, b.same_iff x.1 y.1),
  λ h. ground (arith, a.same_iff x.0 y.0, b.same_iff x.1 y.1, ap (λ p. p.0) h, ap (λ p. p.1) h),
)

instance abbrev pub pair_eq : {A B : Type 0} ⦃a : Eq A⦄ ⦃b : Eq B⦄ → Eq (A × B)
pair_eq ⦃a⦄ ⦃b⦄ = record {
  same = pair_same ⦃a = a⦄ ⦃b = b⦄;
  same_iff = pair_same_iff ⦃a = a⦄ ⦃b = b⦄;
}

abbrev pub Map : Type 0 → Type 0 → Type 0
Map K V = List (K × V)

module _ {K V : Type 0} ⦃e : Eq K⦄ where
  unfoldable pub lookup : K → Map K V → Option V
  lookup k [] = none
  lookup k ((j, v) ∷ m) = if e.same j k then some v else lookup k m

  unfoldable pub insert : K → V → Map K V → Map K V
  insert k v [] = (k, v) ∷ []
  insert k v ((j, w) ∷ m) = if e.same j k then (k, v) ∷ m else (j, w) ∷ insert k v m

  unfoldable pub remove : K → Map K V → Map K V
  remove k [] = []
  remove k ((j, v) ∷ m) = let rest = remove k m in if e.same j k then rest else (j, v) ∷ rest

  pub lookup-nil : (k : K) → lookup k [] ≡ none
  unfolding lookup
  lookup-nil k = refl

  pub lookup-insert :
      (put ask : K) (new : V) (m : Map K V)
      → lookup ask (insert put new m) ≡ (if e.same put ask then some new else lookup ask m)
  unfolding insert lookup
  lookup-insert put ask new [] = refl
  lookup-insert put ask new ((at, old) ∷ later) = ground (
    arith,
    e.same_iff put ask,
    e.same_iff at put,
    e.same_iff at ask,
    lookup-insert put ask new later,
  )

  pub lookup-remove :
      (k j : K) (m : Map K V) → lookup j (remove k m) ≡ (if e.same k j then none else lookup j m)
  unfolding lookup remove
  lookup-remove k j [] = ground arith
  lookup-remove k j ((i, v) ∷ m) =
      ground (arith, e.same_iff k j, e.same_iff i k, e.same_iff i j, lookup-remove k j m)

  -- No key stands twice.
  abbrev pub Distinct : Map K V → Type 0
  Distinct [] = Unit {0}
  Distinct ((k, v) ∷ m) = (lookup k m ≡ none) × Distinct m

  pub insert-Distinct : (k : K) (v : V) (m : Map K V) → Distinct m → Distinct (insert k v m)
  unfolding lookup insert
  insert-Distinct k v [] d = (refl, tt)
  insert-Distinct k v ((i, w) ∷ m) d =
      ground (arith, e.same_iff i k, e.same_iff k i, lookup-insert k i v m, insert-Distinct k v m)

  pub length-insert_new :
      (k : K) (v : V) (m : Map K V) → lookup k m ≡ none → length (insert k v m) ≡ suc (length m)
  unfolding lookup insert
  length-insert_new k v [] h = refl
  length-insert_new k v ((i, w) ∷ m) h = ground (arith, length-insert_new k v m)
