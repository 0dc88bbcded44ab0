-- ===== src/Protocol/Canon/Accepted/Rounds.antt =====
-- What the rounds over items and entries promise.
use my_websocket_net.Prelude.{
  ℕ, suc, ◌+◌, ◌-◌, ◌≡◌, ◌≤◌, refl, sym, subst, Bool, true, false, arith, if◌then◌else◌,
}
use my_websocket_net.Prelude.Text.{Text}
use my_websocket_net.Prelude.Utf8.{is_utf8}
use my_websocket_net.Protocol.Canon.{
  duplicate_key, Canonical, array, object, Items, nil, cons, Fields, end, put, holds_key, IsValue,
  AreFields, Ascending,
}
use my_websocket_net.Protocol.Canon.Nesting.{nesting, nesting_fields}
use my_websocket_net.Protocol.Canon.Parser.{Parser, Parse, pure, fail, ◌>>=◌, skip_ws, leave}
use my_websocket_net.Protocol.Canon.Values.{
  parse_value, parse_items, parse_fields, parse_name, continues, add_entry,
}
use my_websocket_net.Protocol.Canon.Ensures.{
  Ensures, Ensures->>=, Ensures-if, Ensures-weaken, depth_of, size_of, Takes, skip_ws-Takes,
}
use my_websocket_net.Protocol.Canon.Accepted.Maps.{Ascending-put, put-values}
use my_websocket_net.Protocol.Canon.Accepted.Steps.{
  Value, Several, Entries, parse_name-Takes, Opened, leave-Takes, continues-Takes,
}

-- Behind the opening bracket.
pub array_body :
    (empty : Bool) (f : ℕ) (s t : Parser)
    → Opened s empty t
    → (empty ≡ false → Ensures (Several t) (parse_items f t))
    → Ensures (Value s) (
        (if empty
            then pure (array nil)
            else (parse_items f >>= λ items. leave >>= λ _. pure (array items)))
          t)
unfolding IsValue nesting
array_body true f s t o items = (tt, omega arith, omega arith)
array_body false f s t o items =
    Ensures->>= (Value s) (Several t) (parse_items f) (λ xs. leave >>= λ _. pure (array xs)) t
      (items refl)
      λ xs u h.
        Ensures->>= (Value s) (λ _ v. (depth_of v ≡ depth_of u - 1) × (size_of v ≤ size_of u)) leave
          (λ _. pure (array xs)) u (leave-Takes u) λ _ v k. (h.0, omega arith, omega arith)

pub object_body :
    (empty : Bool) (f : ℕ) (s t : Parser)
    → Opened s empty t
    → (empty ≡ false → Ensures (Entries t) (parse_fields f end t))
    → Ensures (Value s) (
        (if empty
            then pure (object end)
            else (parse_fields f end >>= λ fs. leave >>= λ _. pure (object fs)))
          t)
unfolding IsValue nesting
object_body true f s t o fields = ((tt, tt), omega arith, omega arith)
object_body false f s t o fields =
    Ensures->>= (Value s) (Entries t) (parse_fields f end) (λ xs. leave >>= λ _. pure (object xs)) t
      (fields refl)
      λ xs u h.
        Ensures->>= (Value s) (λ _ v. (depth_of v ≡ depth_of u - 1) × (size_of v ≤ size_of u)) leave
          (λ _. pure (object xs)) u (leave-Takes u) λ _ v k. (h.0, omega arith, omega arith)

-- A round over an item, if the value and the rest keep their promises.
pub items_round :
    (f : ℕ) (s : Parser)
    → ((t : Parser) → Takes 0 s t → Ensures (Value t) (parse_value f t))
    → ((t : Parser) → Takes 2 s t → Ensures (Several t) (parse_items f t))
    → Ensures (Several s) (parse_items (suc f) s)
unfolding parse_items IsValue nesting
items_round f s value others =
    let P = Several s in
    let next : Canonical → Bool → Parse Items = λ v more.
      if more then (parse_items f >>= λ items. pure (cons v items)) else pure (cons v nil) in
    Ensures->>= P (λ _. Takes 0 s) skip_ws (λ _. parse_value f >>= λ v. continues b']' >>= next v) s
      (skip_ws-Takes s)
      λ _ t h.
        Ensures->>= P (Value t) (parse_value f) (λ v. continues b']' >>= next v) t (value t h)
          λ v u k.
            Ensures->>= P (λ _. Takes 1 u) (continues b']') (next v) u (continues-Takes b']' u)
              λ more w l.
                Ensures-if P more (parse_items f >>= λ items. pure (cons v items))
                  (pure (cons v nil)) w
                  (Ensures->>= P (Several w) (parse_items f) (λ items. pure (cons v items)) w
                    (others w (omega arith)) λ items x m. ((k.0, m.0), omega arith, omega arith))
                  ((k.0, tt), omega arith, omega arith)

added :
    (key : Text) (v : Canonical) (fs : Fields) (s : Parser)
    → Ensures (λ fs' s'. (fs' ≡ put key v fs) × Takes 0 s s') (add_entry key v fs s)
unfolding add_entry
added key v fs s =
    Ensures-if (λ fs' s'. (fs' ≡ put key v fs) × Takes 0 s s') (holds_key key fs)
      (fail (duplicate_key key)) (pure (put key v fs)) s tt (refl, (refl, omega arith))

pub fields_round :
    (f : ℕ) (acc : Fields) (s : Parser)
    → Ascending acc
    → AreFields acc
    → nesting_fields acc + depth_of s ≤ 16
    → ((t : Parser) → Takes 0 s t → Ensures (Value t) (parse_value f t))
    → ((acc' : Fields) (t : Parser)
        → Takes 2 s t
        → Ascending acc'
        → AreFields acc'
        → nesting_fields acc' + depth_of t ≤ 16
        → Ensures (Entries t) (parse_fields f acc' t))
    → Ensures (Entries s) (parse_fields (suc f) acc s)
unfolding parse_fields
fields_round f acc s up valid shallow value others =
    let P = Entries s in
    let next : Fields → Bool → Parse Fields =
      λ fs more. if more then parse_fields f fs else pure fs in
    let add : Text → Canonical → Parse Fields =
      λ key v. add_entry key v acc >>= λ fs. continues b'}' >>= next fs in
    Ensures->>= P (λ key t. (is_utf8 key ≡ true) × Takes 0 s t) parse_name
      (λ key. parse_value f >>= add key) s (parse_name-Takes s)
      λ key t h.
        Ensures->>= P (Value t) (parse_value f) (add key) t (value t (omega arith)) λ v u k.
          Ensures->>= P (λ fs w. (fs ≡ put key v acc) × Takes 0 u w) (add_entry key v acc)
            (λ fs. continues b'}' >>= next fs) u (added key v acc u)
            λ fs w l.
              Ensures->>= P (λ _. Takes 1 w) (continues b'}') (next fs) w (continues-Takes b'}' w)
                λ more x m.
                  let kept =
                    put-values key v acc (depth_of s) h.0 k.0 (omega arith) valid shallow in
                  let up' = subst Ascending (sym l.0) (Ascending-put key v acc up) in
                  let valid' = subst AreFields (sym l.0) kept.0 in
                  let shallow' : nesting_fields fs + depth_of s ≤ 16 =
                    subst (λ gs. nesting_fields gs + depth_of s ≤ 16) (sym l.0) kept.1 in
                  Ensures-if P more (parse_fields f fs) (pure fs) x
                    (Ensures-weaken P (Entries x) (parse_fields f fs x)
                      (λ gs y n. (n.0, omega arith, omega arith))
                      (others fs x (omega arith) up' valid' (omega arith)))
                    ((up', valid'), omega arith, omega arith)
