-- ===== src/Prelude/Ordered.antt =====
-- Rust's `BTreeMap` with numbers for keys: the entries in ascending order.
use my_websocket_net.Prelude.Tests.{ltb, ◌==◌, if◌then◌else◌}
use my_websocket_net.Prelude.Lists.{length}
use Prim.Native.Nat.{ℕ, suc, ◌≤◌, ◌<◌}
use mathlib.Core.Path.{◌≡◌, refl}
use mathlib.Core.Option.{Option, none, some}
use mathlib.Core.List.{List, [], ◌∷◌}
use native.Mathlib.Omega.{arith}

abbrev pub Ordered {ℓ} : Type ℓ → Type ℓ
Ordered V = List (ℕ × V)

module _ {ℓ} {V : Type ℓ} where
  unfoldable pub lookup : ℕ → Ordered V → Option V
  lookup k [] = none
  lookup k ((j, v) ∷ m) = if j == k then some v else lookup k m

  unfoldable pub insert : ℕ → V → Ordered V → Ordered V
  insert k v [] = (k, v) ∷ []
  insert k v ((j, w) ∷ m) =
      if ltb k j then (k, v) ∷ (j, w) ∷ m else if j == k then (k, v) ∷ m else (j, w) ∷ insert k v m

  unfoldable pub remove : ℕ → Ordered V → Ordered V
  remove k [] = []
  remove k ((j, v) ∷ m) = let rest = remove k m in if j == k then rest else (j, v) ∷ rest

  pub lookup-nil : (k : ℕ) → lookup k [] ≡ none
  unfolding lookup
  lookup-nil k = refl

  pub lookup-insert :
      (put ask : ℕ) (new : V) (m : Ordered V)
      → lookup ask (insert put new m) ≡ (if put == ask then some new else lookup ask m)
  unfolding insert lookup
  lookup-insert put ask new [] = refl
  lookup-insert put ask new ((at, old) ∷ later) = ground (lookup-insert put ask new later, arith)

  pub lookup-remove :
      (out ask : ℕ) (m : Ordered V)
      → lookup ask (remove out m) ≡ (if out == ask then none else lookup ask m)
  unfolding remove lookup
  lookup-remove out ask [] = ground arith
  lookup-remove out ask ((at, old) ∷ later) = ground (lookup-remove out ask later, arith)

  -- The keys ascend from `low` on.
  abbrev pub From : ℕ → Ordered V → Type 0
  From low [] = Unit {0}
  From low ((k, v) ∷ m) = (low ≤ k) × From (suc k) m

  pub From-weaken : (low low' : ℕ) (m : Ordered V) → low' ≤ low → From low m → From low' m
  From-weaken low low' [] h f = tt
  From-weaken low low' ((k, v) ∷ m) h f = (omega arith, f.1)

  pub From-insert :
      (low k : ℕ) (v : V) (m : Ordered V) → low ≤ k → From low m → From low (insert k v m)
  unfolding insert
  From-insert low k v [] h f = (h, tt)
  From-insert low k v ((j, w) ∷ m) h f =
      ground (arith, From-insert (suc j) k v m, From-weaken (suc j) (suc k) m)

  pub From-remove : (low k : ℕ) (m : Ordered V) → From low m → From low (remove k m)
  unfolding remove
  From-remove low k [] f = tt
  From-remove low k ((j, v) ∷ m) f =
      ground (arith, From-remove (suc j) k m, From-weaken (suc j) low (remove k m))

  pub lookup_below : (low k : ℕ) (m : Ordered V) → From low m → k < low → lookup k m ≡ none
  unfolding lookup
  lookup_below low k [] f h = refl
  lookup_below low k ((j, v) ∷ m) f h = ground (arith, lookup_below (suc j) k m)

  pub length-insert_new :
      (low k : ℕ) (v : V) (m : Ordered V)
      → From low m
      → lookup k m ≡ none
      → length (insert k v m) ≡ suc (length m)
  unfolding lookup insert
  length-insert_new low k v [] f h = refl
  length-insert_new low k v ((j, w) ∷ m) f h = ground (arith, length-insert_new (suc j) k v m)

  pub length-insert_old :
      (low k : ℕ) (v w : V) (m : Ordered V)
      → From low m
      → lookup k m ≡ some w
      → length (insert k v m) ≡ length m
  unfolding lookup insert
  length-insert_old low k v w [] f h = absurd (cc)
  length-insert_old low k v w ((j, u) ∷ m) f h =
      ground (arith, length-insert_old (suc j) k v w m, lookup_below (suc j) k m)

  pub length-insert-le : (k : ℕ) (v : V) (m : Ordered V) → length (insert k v m) ≤ suc (length m)
  unfolding insert
  length-insert-le k v [] = omega arith
  length-insert-le k v ((j, w) ∷ m) = ground (arith, length-insert-le k v m)

  pub length-remove-le : (k : ℕ) (m : Ordered V) → length (remove k m) ≤ length m
  unfolding remove
  length-remove-le k [] = omega arith
  length-remove-le k ((j, v) ∷ m) = ground (arith, length-remove-le k m)
