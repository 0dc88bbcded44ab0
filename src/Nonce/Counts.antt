-- ===== src/Nonce/Counts.antt =====
-- The counts by node that the store keeps.
use Prim.Native.String.{String}
use my_websocket_net.Prelude.{
  ℕ, ◌+◌, ◌-◌, ◌≤◌, ◌≡◌, ap, Bool, true, false, Bool-cases, inl, inr, none, [], ◌∷◌, arith, leb,
  length,
}
use my_websocket_net.Prelude.Map.{
  Map, lookup, insert, lookup-insert, lookup-remove, pair_same, pair_same_iff, pair_eq, string_eq,
}
use my_websocket_net.Nonce.{NonceKey, Entry, nonce_key_eq, node_of, or_zero, release, retain}

abbrev pub Node : Type 0
Node = String × String

abbrev pub same_node : Node → Node → Bool
same_node a b = pair_same a b

abbrev pub one_if : Bool → ℕ
one_if true = 1
one_if false = 0

-- The retained records of one node.
unfoldable pub count : Node → Map NonceKey Entry → ℕ
count node [] = 0
count node ((k, _) ∷ entries) = one_if (same_node (node_of k) node) + count node entries

release-lookup :
    (node other : Node) (per_node : Map Node ℕ)
    → or_zero (lookup other (release node per_node))
      ≡ or_zero (lookup other per_node) - one_if (same_node node other)
unfolding release
release-lookup node other per_node = elim (Bool-cases (same_node node other)) [
  | inl here ↦ ground (
    arith,
    pair_same_iff node other,
    here,
    lookup-remove node other per_node,
    lookup-insert node other (or_zero (lookup node per_node) - 1) per_node,
    ap (λ n. or_zero (lookup n per_node)) ((pair_same_iff node other).0 here),
  )
  | inr apart ↦ ground (
    arith,
    apart,
    lookup-remove node other per_node,
    lookup-insert node other (or_zero (lookup node per_node) - 1) per_node,
  )
]

pub retain-count :
    (mono : ℕ) (entries : Map NonceKey Entry) (per_node : Map Node ℕ) (node : Node) (more : ℕ)
    → or_zero (lookup node per_node) ≡ count node entries + more
    → or_zero (lookup node (retain mono entries per_node).1)
      ≡ count node (retain mono entries per_node).0 + more
unfolding retain count
retain-count mono [] per_node node more h = h
retain-count mono ((k, v) ∷ entries) per_node node more h =
    let here = one_if (same_node (node_of k) node) in
    elim (Bool-cases (leb v.retain_until_ms mono)) [
      | inl due ↦ rw due (
          retain-count mono entries (release (node_of k) per_node) node more
            (omega (arith, release-lookup (node_of k) node per_node, h)))
      | inr late ↦
          rw late (
            omega (arith, retain-count mono entries per_node node (more + here) (omega (arith, h))))
    ]

pub retain-fewer :
    (mono : ℕ) (entries : Map NonceKey Entry) (per_node : Map Node ℕ) (node : Node)
    → (count node (retain mono entries per_node).0 ≤ count node entries)
      × (length (retain mono entries per_node).0 ≤ length entries)
unfolding retain count
retain-fewer mono [] per_node node = (omega arith, omega arith)
retain-fewer mono ((k, v) ∷ entries) per_node node = ground (
  arith,
  retain-fewer mono entries per_node node,
  retain-fewer mono entries (release (node_of k) per_node) node,
)

pub count-insert_new :
    (key : NonceKey) (e : Entry) (entries : Map NonceKey Entry) (node : Node)
    → lookup key entries ≡ none
    → count node (insert key e entries) ≡ count node entries + one_if (same_node (node_of key) node)
unfolding count insert lookup
count-insert_new key e [] node h = omega arith
count-insert_new key e ((k, v) ∷ entries) node h =
    ground (arith, h, count-insert_new key e entries node)
