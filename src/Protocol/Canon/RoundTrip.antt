-- ===== src/Protocol/Canon/RoundTrip.antt =====
-- Parsing what `write` wrote.
use my_websocket_net.Prelude.{
  ℕ, zero, suc, ◌+◌, ◌*◌, ◌≡◌, ◌≤◌, ◌<◌, refl, sym, ap, subst, ◌∙◌, Bool, true, false, [], ◌∷◌,
  ◌++◌, append-nil, append_assoc, arith, length, length-append, le→ltb,
}
use my_websocket_net.Prelude.Text.{Text}
use my_websocket_net.Prelude.Utf8.{is_utf8}
use my_websocket_net.Prelude.Result.{Result, ok, err}
use my_websocket_net.Protocol.Canon.{
  ℤ, IsI64, CanonError, Canonical, null, bool, int, str, array, object, Items, nil, cons, Fields,
  end, field, put, write, write_items, write_fields, write_json_string, print_int, to_bytes,
  IsValue, AreValues, AreFields, Ascending, max_canon_depth,
}
use my_websocket_net.Protocol.Canon.Nesting.{nesting, nesting_items, nesting_fields}
use my_websocket_net.Protocol.Canon.Parser.{Parser, at, Parse, pure, >>=-ok, skip_ws, parse_string}
use my_websocket_net.Protocol.Canon.Strings.{parse_string-write_json_string}
use my_websocket_net.Protocol.Canon.Numbers.{
  ends_number, first_is, print_int-first, parse_number-print_int,
}
use my_websocket_net.Protocol.Canon.Values.{
  parse_value, parse_array, parse_items, parse_object, parse_fields, scalar_or, from_bytes_bounded,
  parse_whole, enough, finish,
}
use my_websocket_net.Protocol.Canon.Steps.{
  opens, first_is-append, write-first, skip_ws-opens, scalar_or-number, scalar_or-literal,
}
use my_websocket_net.Protocol.Canon.Loops.{
  items_last, items_more, fields_last, fields_more, array_empty, object_empty, array_items,
  object_fields,
}
use my_websocket_net.Protocol.Canon.Entries.{
  join, Before, put-last, holds_key-last, Before-join, join_assoc,
}

-- The parser, with fuel, reads `a` off what was printed and leaves the rest.
abbrev Reads : {A : Type 0} → Parse A → Text → Text → ℕ → ℕ → A → Type 0
Reads p printed rest at_byte d a =
    (q : ℕ) × (p (at (printed ++ rest) at_byte d) ≡ ok (a, at rest q d))

str_back :
    (f : ℕ) (s rest : Text) (p d : ℕ)
    → is_utf8 s ≡ true
    → Reads (parse_value (suc f)) (write (str s)) rest p d (str s)
unfolding parse_value scalar_or write write_json_string
str_back f s rest p d valid =
    let (q, reads) = parse_string-write_json_string s rest p d valid in
    (
      q,
      >>=-ok parse_string (λ bytes. pure (str bytes)) (at (write_json_string s ++ rest) p d) reads,
    )

int_back :
    (f : ℕ) (n : ℤ) (rest : Text) (p d : ℕ)
    → IsI64 n
    → ends_number rest ≡ true
    → Reads (parse_value (suc f)) (write (int n)) rest p d (int n)
unfolding parse_value write
int_back f n rest p d fits ends =
    let (q, reads) = parse_number-print_int n rest p d fits ends in
    (
      q,
      scalar_or-number (parse_array f) (parse_object f) (print_int n) rest p d (print_int-first n)
          ∙ reads,
    )

-- It takes the closing byte behind what was printed.
abbrev Closes : {A : Type 0} → Parse A → Text → ℕ → Text → ℕ → ℕ → A → Type 0
Closes p printed close rest at_byte d a =
    (q : ℕ) × (p (at (printed ++ (close ∷ rest)) at_byte d) ≡ ok (a, at rest q d))

literal_back_null :
    (f : ℕ) (rest : Text) (p d : ℕ) → Reads (parse_value (suc f)) (write null) rest p d null
unfolding parse_value write
literal_back_null f rest p d =
    (p + 4, (scalar_or-literal (parse_array f) (parse_object f) rest p d).0)

literal_back_true :
    (f : ℕ) (rest : Text) (p d : ℕ)
    → Reads (parse_value (suc f)) (write (bool true)) rest p d (bool true)
unfolding parse_value write
literal_back_true f rest p d =
    (p + 4, (scalar_or-literal (parse_array f) (parse_object f) rest p d).1)

literal_back_false :
    (f : ℕ) (rest : Text) (p d : ℕ)
    → Reads (parse_value (suc f)) (write (bool false)) rest p d (bool false)
unfolding parse_value write
literal_back_false f rest p d =
    (p + 5, (scalar_or-literal (parse_array f) (parse_object f) rest p d).2)

quote_opens : (s rest : Text) → first_is opens (write_json_string s ++ rest) ≡ true
unfolding write_json_string
quote_opens s rest = refl

-- The pieces of a printed entry, with what follows brought together.
entry_assoc :
    (key value inner rest : Text)
    → (write_json_string key ++ (b':' ∷ (value ++ inner))) ++ rest
      ≡ write_json_string key ++ (b':' ∷ (value ++ (inner ++ rest)))
entry_assoc key value inner rest =
    append_assoc (write_json_string key) (b':' ∷ (value ++ inner)) rest
    ∙ ap (λ t. write_json_string key ++ (b':' ∷ t)) (append_assoc value inner rest)

length-entry :
    (key value inner : Text)
    → length value + length inner < length (write_json_string key ++ (b':' ∷ (value ++ inner)))
length-entry key value inner = omega (
  arith,
  length-append (write_json_string key) (b':' ∷ (value ++ inner)),
  length-append value inner,
)

-- The keys of `fs` come after those of `acc`.
abbrev BeforeAll : Fields → Fields → Type 0
BeforeAll acc end = Unit {0}
BeforeAll acc (field k v fs) = Before k acc

regroup :
    (k : Text) (v : Canonical) (acc fs : Fields)
    → put k v acc ≡ join acc (field k v end)
    → join (put k v acc) fs ≡ join acc (field k v fs)
regroup k v acc fs joined =
    ap (λ gs. join gs fs) joined ∙ (join_assoc acc (field k v end) fs ∙ ap (join acc) (one k v fs))
  where
    one : (k : Text) (v : Canonical) (fs : Fields) → join (field k v end) fs ≡ field k v fs
    one k v fs = unfold join in refl

abbrev is_cons : Items → Bool
is_cons nil = false
is_cons (cons v items) = true

abbrev is_field : Fields → Bool
is_field end = false
is_field (field k v fs) = true

-- The fuel that a printed text needs.
abbrev Fueled : ℕ → Text → ℕ → Type 0
Fueled extra printed f = 2 * length printed + extra < f

mutual
  unfolding write nesting IsValue join

  value_back :
      (v : Canonical)
      → IsValue v
      → (rest : Text) (f p d : ℕ) → Fueled 0 (write v) f
      → nesting v + d ≤ 16
      → ends_number rest ≡ true
      → Reads (parse_value f) (write v) rest p d v
  value_back v valid rest zero p d h room ends = absurd (omega arith)
  value_back null valid rest (suc f) p d h room ends = literal_back_null f rest p d
  value_back (bool true) valid rest (suc f) p d h room ends = literal_back_true f rest p d
  value_back (bool false) valid rest (suc f) p d h room ends = literal_back_false f rest p d
  value_back (int n) valid rest (suc f) p d h room ends = int_back f n rest p d valid ends
  value_back (str s) valid rest (suc f) p d h room ends = str_back f s rest p d valid
  value_back (array nil) valid rest (suc zero) p d h room ends = absurd (omega arith)
  value_back (array nil) valid rest (suc (suc f)) p d h room ends =
      (p + 1 + 1, array_empty f rest p d (omega arith))
  value_back (array (cons v items)) valid rest (suc zero) p d h room ends = absurd (omega arith)
  value_back (array (cons v items)) valid rest (suc (suc f)) p d h room ends =
      let inner = write_items true (cons v items) in
      let fuel : Fueled 1 inner f = omega (arith, h, length-append inner (b']' ∷ [])) in
      let (q, reads) =
        items_back (cons v items) valid rest f (p + 1) (d + 1) fuel (omega arith) refl in
      (
        q,
        ap (λ t. parse_value (suc (suc f)) (at (b'[' ∷ t) p d))
              (append_assoc inner (b']' ∷ []) rest)
            ∙ array_items f (cons v items) (inner ++ (b']' ∷ rest)) rest p q d (omega arith)
                (first_is-append opens inner (b']' ∷ rest)
                  (first_is-append opens (write v) (write_items false items) (write-first v)))
                reads,
      )
  value_back (object end) valid rest (suc zero) p d h room ends = absurd (omega arith)
  value_back (object end) valid rest (suc (suc f)) p d h room ends =
      (p + 1 + 1, object_empty f rest p d (omega arith))
  value_back (object (field k v fs)) valid rest (suc zero) p d h room ends = absurd (omega arith)
  value_back (object (field k v fs)) valid rest (suc (suc f)) p d h room ends =
      let inner = write_fields true (field k v fs) in
      let fuel : Fueled 1 inner f = omega (arith, h, length-append inner (b'}' ∷ [])) in
      let (q, reads) =
        fields_back (field k v fs) valid.1 end valid.0 tt rest f (p + 1) (d + 1) fuel (omega arith)
          refl in
      (
        q,
        ap (λ t. parse_value (suc (suc f)) (at (b'{' ∷ t) p d))
              (append_assoc inner (b'}' ∷ []) rest)
            ∙ object_fields f (field k v fs) (inner ++ (b'}' ∷ rest)) rest p q d (omega arith)
                (first_is-append opens inner (b'}' ∷ rest)
                  (quote_opens k (b':' ∷ (write v ++ write_fields false fs))))
                reads,
      )

  items_back :
      (items : Items)
      → AreValues items
      → (rest : Text) (f p d : ℕ) → Fueled 1 (write_items true items) f
      → nesting_items items + d ≤ 16
      → is_cons items ≡ true
      → Closes (parse_items f) (write_items true items) b']' rest p d items
  items_back items valid rest zero p d h room some_item = absurd (omega arith)
  items_back nil valid rest (suc f) p d h room some_item = cc
  items_back (cons v nil) valid rest (suc f) p d h room some_item =
      let fuel : Fueled 0 (write v) f = omega (arith, h, length-append (write v) []) in
      let (q, reads) = value_back v valid.0 (b']' ∷ rest) f p d fuel (omega arith) refl in
      (
        q + 1,
        ap (λ t. parse_items (suc f) (at t p d)) (append_assoc (write v) [] (b']' ∷ rest))
            ∙ items_last f v rest p d q reads,
      )
  items_back (cons v (cons w items)) valid rest (suc f) p d h room some_item =
      let others = write_items true (cons w items) in
      let long = length-append (write v) (b',' ∷ others) in
      let t = others ++ (b']' ∷ rest) in
      let fuel : Fueled 0 (write v) f = omega (arith, h, long) in
      let (q, reads) = value_back v valid.0 (b',' ∷ t) f p d fuel (omega arith) refl in
      let (q', more) =
        items_back (cons w items) valid.1 rest f (q + 1) d (omega (arith, h, long)) (omega arith)
          refl in
      (
        q',
        ap (λ t'. parse_items (suc f) (at t' p d))
              (append_assoc (write v) (b',' ∷ others) (b']' ∷ rest))
            ∙ items_more f v (cons w items) t (at rest q' d) p d q reads more,
      )

  fields_back :
      (fs : Fields)
      → AreFields fs
      → (acc : Fields) → Ascending fs
      → BeforeAll acc fs
      → (rest : Text) (f p d : ℕ) → Fueled 1 (write_fields true fs) f
      → nesting_fields fs + d ≤ 16
      → is_field fs ≡ true
      → Closes (parse_fields f acc) (write_fields true fs) b'}' rest p d (join acc fs)
  fields_back fs valid acc up before rest zero p d h room some_field = absurd (omega arith)
  fields_back end valid acc up before rest (suc f) p d h room some_field = cc
  fields_back (field k v end) valid acc up before rest (suc f) p d h room some_field =
      let fuel : Fueled 0 (write v) f = omega (arith, h, length-entry k (write v) []) in
      let (q, reads) =
        fields_last f k v acc valid.0 (holds_key-last k acc before) rest p d
          (λ p'. value_back v valid.1 (b'}' ∷ rest) f p' d fuel (omega arith) refl) in
      (
        q,
        ap (λ t. parse_fields (suc f) acc (at t p d)) (entry_assoc k (write v) [] (b'}' ∷ rest))
            ∙ reads
            ∙ ap (λ fs'. ok (fs', at rest q d)) (put-last k v acc before),
      )
  fields_back (field k v (field k' v' fs)) valid acc up before rest (suc f) p d h room some_field =
      let others = write_fields true (field k' v' fs) in
      let long = length-entry k (write v) (b',' ∷ others) in
      let t = others ++ (b'}' ∷ rest) in
      let fuel : Fueled 0 (write v) f = omega (arith, h, long) in
      let joined = put-last k v acc before in
      let (q, reads) =
        fields_more f k v acc valid.0 (holds_key-last k acc before)
          (join (put k v acc) (field k' v' fs)) t rest p d
          (λ p'. value_back v valid.1 (b',' ∷ t) f p' d fuel (omega arith) refl)
          (λ p'.
            fields_back (field k' v' fs) valid.2 (put k v acc) up.1
              (subst (Before k') (sym joined) (Before-join k k' v acc up.0 before)) rest f p' d
              (omega (arith, h, long)) (omega arith) refl) in
      (
        q,
        ap (λ t'. parse_fields (suc f) acc (at t' p d))
              (entry_assoc k (write v) (b',' ∷ others) (b'}' ∷ rest))
            ∙ reads
            ∙ ap (λ fs'. ok (fs', at rest q d)) (regroup k v acc (field k' v' fs) joined),
      )

parse_whole_lem :
    (input : Text) (v : Canonical) (q : ℕ)
    → skip_ws (at input 0 0) ≡ ok (tt, at input 0 0)
    → parse_value (enough input) (at input 0 0) ≡ ok (v, at [] q 0)
    → parse_whole input ≡ ok v
unfolding parse_whole skip_ws finish
parse_whole_lem input v q black reads =
    ap {A = Result (Canonical × Parser) CanonError} {B = Result Canonical CanonError}
      (λ r. elim r [
        | err e ↦ err e
        | ok (v', s) ↦ elim (skip_ws s) [ err e ↦ err e | ok (_, s') ↦ finish v' s' ]
      ])
      (>>=-ok skip_ws (λ _. parse_value (enough input)) (at input 0 0) black ∙ reads)

-- A value of the Rust type whose arrays and objects are nested at most 16 deep is read back from its canonical bytes,
-- under any limit that they meet.
pub from_bytes_bounded-to_bytes :
    (v : Canonical) (limit : ℕ)
    → IsValue v
    → nesting v ≤ max_canon_depth
    → length (to_bytes v) ≤ limit
    → from_bytes_bounded (to_bytes v) limit ≡ ok v
unfolding from_bytes_bounded
from_bytes_bounded-to_bytes v limit valid shallow fits =
    let input = to_bytes v in
    let (q, reads) = value_back v valid [] (enough input) 0 0 (omega arith) (omega arith) refl in
    rw (le→ltb limit (length input) fits) (
      parse_whole_lem input v q (skip_ws-opens input 0 0 (write-first v)) (
        subst (λ t. parse_value (enough input) (at t 0 0) ≡ ok (v, at [] q 0)) (append-nil input)
          reads))
