-- ===== src/Protocol/Canon/Nesting.antt =====
-- How deep arrays and objects stand in one another. `depth` counts a scalar as a level of its own.
use my_websocket_net.Prelude.{ℕ, suc, ◌≤◌, max, arith}
use my_websocket_net.Protocol.Canon.{
  Canonical, null, bool, int, str, array, object, Items, nil, cons, Fields, end, field, depth,
  depth_items, depth_fields,
}

unfoldable mutual
  pub nesting : Canonical → ℕ
  nesting null = 0
  nesting (bool b) = 0
  nesting (int n) = 0
  nesting (str s) = 0
  nesting (array items) = suc (nesting_items items)
  nesting (object fs) = suc (nesting_fields fs)

  pub nesting_items : Items → ℕ
  nesting_items nil = 0
  nesting_items (cons v items) = max (nesting v) (nesting_items items)

  pub nesting_fields : Fields → ℕ
  nesting_fields end = 0
  nesting_fields (field k v fs) = max (nesting v) (nesting_fields fs)

mutual
  unfolding nesting depth

  pub nesting-le-depth : (v : Canonical) → nesting v ≤ depth v
  nesting-le-depth null = omega arith
  nesting-le-depth (bool b) = omega arith
  nesting-le-depth (int n) = omega arith
  nesting-le-depth (str s) = omega arith
  nesting-le-depth (array items) = omega (arith, items-le items)
  nesting-le-depth (object fs) = omega (arith, fields-le fs)

  items-le : (items : Items) → nesting_items items ≤ depth_items items
  items-le nil = omega arith
  items-le (cons v items) = omega (arith, nesting-le-depth v, items-le items)

  fields-le : (fs : Fields) → nesting_fields fs ≤ depth_fields fs
  fields-le end = omega arith
  fields-le (field k v fs) = omega (arith, nesting-le-depth v, fields-le fs)
