-- ===== src/Protocol/Canon/Accepted.antt =====
-- What the parser accepts, and that its loops end.
mod Maps
mod Steps
mod Rounds
use my_websocket_net.Prelude.{
  ℕ, zero, suc, ◌+◌, ◌-◌, ◌*◌, ◌≡◌, ◌≢◌, ◌≤◌, ◌<◌, refl, sym, ap, subst, Bool, true, false, ◌||◌,
  List, [], ◌∷◌, arith, ltb, leb, ◌==◌, if◌then◌else◌, length, Bool-cases, inl, inr, leb→lt,
}
use my_websocket_net.Prelude.Text.{
  Text, text, same_text, text_ltb, text_ltb-total, same_text_sound, same_text_refl,
}
use my_websocket_net.Prelude.Utf8.{is_utf8}
use my_websocket_net.Prelude.Decimal.{is_digit}
use my_websocket_net.Prelude.Result.{Result, ok, err}
use my_websocket_net.Protocol.Canon.{
  CanonError, out_of_fuel, unexpected_byte, duplicate_key, too_deep, Canonical, null, bool, str,
  array, object, Items, nil, cons, Fields, end, field, put, holds_key, IsValue, AreValues,
  AreFields, Ascending, Above, max_canon_depth,
}
use my_websocket_net.Protocol.Canon.Nesting.{nesting, nesting_items, nesting_fields}
use my_websocket_net.Protocol.Canon.Parser.{
  Parser, at, Parse, pure, fail, ◌>>=◌, skip_ws, skip_one, enter, leave, bump, sees, parse_string,
  parse_number, expect_literal, parse_key, expect_colon, bad_byte,
}
use my_websocket_net.Protocol.Canon.Values.{
  parse_value, parse_array, parse_items, parse_object, parse_fields, open_with, parse_name,
  continues, add_entry, scalar_or, from_bytes_bounded, parse_whole, enough, finish, peeks,
}
use my_websocket_net.Protocol.Canon.Ensures.{
  IsReal, Ensures, Ensures->>=, Ensures-if, Ensures-choice, Ensures-weaken, depth_of, size_of,
  Takes, bump-Takes, skip_one-Takes, skip_ws-Takes, expect_literal-Takes,
}
use my_websocket_net.Protocol.Canon.Ensures.Figures.{Scalar}
use my_websocket_net.Protocol.Canon.Ensures.Figures.{parse_number-Takes}
use my_websocket_net.Protocol.Canon.Ensures.Texts.{parse_string-Takes}
use my_websocket_net.Protocol.Canon.Accepted.Maps.{Ascending-put, put-values}
use my_websocket_net.Protocol.Canon.Accepted.Steps.{
  Value, Several, Entries, parse_name-Takes, Opened, leave-Takes, open_with-Opened, continues-Takes,
  scalar_or-Value,
}
use my_websocket_net.Protocol.Canon.Accepted.Rounds.{
  array_body, object_body, items_round, fields_round,
}

-- The fuel that reading a value needs.
abbrev ValueFuel : ℕ → Parser → Type 0
ValueFuel f s = 3 * size_of s + 1 ≤ f

mutual
  unfolding parse_value scalar_or IsValue nesting

  Value-good :
      (f : ℕ) (s : Parser) → ValueFuel f s → depth_of s ≤ 16 → Ensures (Value s) (parse_value f s)
  Value-good zero s h room = absurd (omega arith)
  Value-good (suc f) (at [] p d) h room = tt
  Value-good (suc f) (at (b ∷ rest) p d) h room =
      scalar_or-Value (parse_array f) (parse_object f) b rest p d room
        (array_good f b rest p d (omega arith)) (object_good f b rest p d (omega arith))

  array_good :
      (f b : ℕ) (rest : List ℕ) (p d : ℕ)
      → 3 * length rest + 3 ≤ f
      → Ensures (Value (at (b ∷ rest) p d)) (parse_array f (at (b ∷ rest) p d))
  array_good zero b rest p d h = absurd (omega arith)
  array_good (suc f) b rest p d h =
      let s = at (b ∷ rest) p d in
      let body : Parse Canonical = parse_items f >>= λ xs. leave >>= λ _. pure (array xs) in
      Ensures->>= (Value s) (Opened s) (open_with b']')
        (λ empty. if empty then pure (array nil) else body) s (open_with-Opened b']' b rest p d)
        λ empty t o. array_body empty f s t o (λ inside.
          let deeper =
            subst (λ e. depth_of t ≡ (if e then depth_of s else suc (depth_of s))) inside o.1 in
          items_good f t (omega arith) (omega arith))

  items_good :
      (f : ℕ) (s : Parser)
      → 3 * size_of s + 2 ≤ f
      → depth_of s ≤ 16
      → Ensures (Several s) (parse_items f s)
  items_good zero s h room = absurd (omega arith)
  items_good (suc f) s h room =
      items_round f s (λ t taken. Value-good f t (omega arith) (omega arith))
        (λ t taken. items_good f t (omega arith) (omega arith))

  object_good :
      (f b : ℕ) (rest : List ℕ) (p d : ℕ)
      → 3 * length rest + 3 ≤ f
      → Ensures (Value (at (b ∷ rest) p d)) (parse_object f (at (b ∷ rest) p d))
  object_good zero b rest p d h = absurd (omega arith)
  object_good (suc f) b rest p d h =
      let s = at (b ∷ rest) p d in
      let body : Parse Canonical = parse_fields f end >>= λ xs. leave >>= λ _. pure (object xs) in
      Ensures->>= (Value s) (Opened s) (open_with b'}')
        (λ empty. if empty then pure (object end) else body) s (open_with-Opened b'}' b rest p d)
        λ empty t o. object_body empty f s t o (λ inside.
          let deeper =
            subst (λ e. depth_of t ≡ (if e then depth_of s else suc (depth_of s))) inside o.1 in
          fields_good f end t (omega arith) (omega arith) tt tt (omega arith))

  fields_good :
      (f : ℕ) (acc : Fields) (s : Parser)
      → 3 * size_of s + 2 ≤ f
      → depth_of s ≤ 16
      → Ascending acc
      → AreFields acc
      → nesting_fields acc + depth_of s ≤ 16
      → Ensures (Entries s) (parse_fields f acc s)
  fields_good zero acc s h room up valid shallow = absurd (omega arith)
  fields_good (suc f) acc s h room up valid shallow =
      fields_round f acc s up valid shallow (λ t taken. Value-good f t (omega arith) (omega arith))
        (λ acc' t taken up' valid' shallow'.
          fields_good f acc' t (omega arith) (omega arith) up' valid' shallow')

-- The promise for a whole input.
abbrev Answer : Result Canonical CanonError → Type 0
Answer (ok v) = IsValue v × (nesting v ≤ 16)
Answer (err e) = IsReal e

finish-Answer : (v : Canonical) (s : Parser) → IsValue v → nesting v ≤ 16 → Answer (finish v s)
unfolding finish
finish-Answer v (at [] p d) valid shallow = (valid, shallow)
finish-Answer v (at (b ∷ rest) p d) valid shallow = tt

parse_whole-Answer : (input : List ℕ) → Answer (parse_whole input)
unfolding parse_whole
parse_whole-Answer input = closing ((skip_ws >>= λ _. parse_value (enough input)) start) opened
  where
    start : Parser
    start = at input 0 0

    opened :
        Ensures
          (λ v _. IsValue v × (nesting v ≤ 16))
          ((skip_ws >>= λ _. parse_value (enough input)) start)
    opened =
        Ensures->>= (λ v _. IsValue v × (nesting v ≤ 16)) (λ _. Takes 0 start) skip_ws
          (λ _. parse_value (enough input)) start (skip_ws-Takes start)
          λ _ s taken.
            Ensures-weaken (λ v _. IsValue v × (nesting v ≤ 16)) (Value s)
              (parse_value (enough input) s) (λ v t h. (h.0, omega arith))
              (Value-good (enough input) s (omega arith) (omega arith))

    ends :
        (v : Canonical) (r : Result (Unit {0} × Parser) CanonError)
        → Ensures (λ _ _. Unit {0}) r
        → IsValue v
        → nesting v ≤ 16
        → Answer (elim r [ err e ↦ err e | ok (_, s) ↦ finish v s ])
    ends v (ok (u, s)) h valid shallow = finish-Answer v s valid shallow
    ends v (err e) real valid shallow = real

    closing :
        (r : Result (Canonical × Parser) CanonError)
        → Ensures (λ v _. IsValue v × (nesting v ≤ 16)) r
        → Answer (elim r [
          | err e ↦ err e
          | ok (v, s) ↦ elim (skip_ws s) [ err e ↦ err e | ok (_, s') ↦ finish v s' ]
        ])
    closing (ok (v, s)) h =
        ends v (skip_ws s)
          (Ensures-weaken (λ _ _. Unit {0}) (λ _. Takes 0 s) (skip_ws s) (λ _ _ _. tt)
            (skip_ws-Takes s))
          h.0 h.1
    closing (err e) real = real

from_bytes_bounded-Answer : (input : List ℕ) (limit : ℕ) → Answer (from_bytes_bounded input limit)
unfolding from_bytes_bounded
from_bytes_bounded-Answer input limit = elim (Bool-cases (ltb limit (length input))) [
  | inl long ↦ rw long tt
  | inr fits ↦ rw fits (parse_whole-Answer input)
]

-- Whatever the parser accepts is a value of the Rust type: its integers are i64s, its texts UTF-8, the
-- keys of each object ascend with none twice; and its arrays and objects are nested at most 16 deep.
pub accepted-IsValue :
    (input : List ℕ) (limit : ℕ) (v : Canonical)
    → from_bytes_bounded input limit ≡ ok v
    → IsValue v × (nesting v ≤ max_canon_depth)
accepted-IsValue input limit v accepted =
    subst Answer accepted (from_bytes_bounded-Answer input limit)

-- On every input the parser ends, with a value or with an error of the code: its fuel never runs out.
pub from_bytes_bounded-ends :
    (input : List ℕ) (limit : ℕ) → from_bytes_bounded input limit ≢ err out_of_fuel
from_bytes_bounded-ends input limit stuck =
    subst Answer stuck (from_bytes_bounded-Answer input limit)
