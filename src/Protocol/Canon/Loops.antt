-- ===== src/Protocol/Canon/Loops.antt =====
-- One round of the loops over items and entries, and what surrounds them.
use my_websocket_net.Prelude.{
  arith, ℕ, suc, ◌+◌, ◌≡◌, ◌<◌, refl, ◌∙◌, Bool, true, false, ◌∷◌, ◌++◌, if◌then◌else◌,
}
use my_websocket_net.Prelude.Text.{Text}
use my_websocket_net.Prelude.Utf8.{is_utf8}
use my_websocket_net.Prelude.Result.{ok}
use my_websocket_net.Protocol.Canon.{
  Canonical, array, object, Items, nil, cons, Fields, end, put, holds_key, write, write_json_string,
}
use my_websocket_net.Protocol.Canon.Parser.{Parser, at, Parse, pure, >>=-ok, ◌>>=◌, skip_ws, leave}
use my_websocket_net.Protocol.Canon.Numbers.{first_is}
use my_websocket_net.Protocol.Canon.Values.{
  parse_value, parse_items, parse_fields, open_with, parse_name, continues, add_entry, scalar_or,
}
use my_websocket_net.Protocol.Canon.Steps.{
  opens, first_is-append, write-first, skip_ws-opens, open_with-opens, open_with-closed,
  continues-comma, continues-close, parse_name-write,
}

-- Behind a value: a comma with a state after it, or the closing byte.
abbrev Continues : ℕ → Text → Text → Bool → Type 0
Continues close behind t more =
    (p d : ℕ) → continues close (at behind p d) ≡ ok (more, at t (p + 1) d)

items_value :
    (f : ℕ) (v : Canonical) (behind t : Text) (p d q : ℕ) (more : Bool)
    → Continues b']' behind t more
    → parse_value f (at (write v ++ behind) p d) ≡ ok (v, at behind q d)
    → parse_items (suc f) (at (write v ++ behind) p d)
      ≡ (if more then (parse_items f >>= λ items. pure (cons v items)) else pure (cons v nil))
          (at t (q + 1) d)
unfolding parse_items
items_value f v behind t p d q more goes reads =
    let next : Canonical → Bool → Parse Items = λ w more'.
      if more' then (parse_items f >>= λ items. pure (cons w items)) else pure (cons w nil) in
    >>=-ok skip_ws (λ _. parse_value f >>= λ w. continues b']' >>= next w)
      (at (write v ++ behind) p d)
      (skip_ws-opens (write v ++ behind) p d
        (first_is-append opens (write v) behind (write-first v)))
    ∙ >>=-ok (parse_value f) (λ w. continues b']' >>= next w) (at (write v ++ behind) p d) reads
    ∙ >>=-ok (continues b']') (next v) (at behind q d) (goes q d)

pub items_last :
    (f : ℕ) (v : Canonical) (rest : Text) (p d q : ℕ)
    → parse_value f (at (write v ++ (b']' ∷ rest)) p d) ≡ ok (v, at (b']' ∷ rest) q d)
    → parse_items (suc f) (at (write v ++ (b']' ∷ rest)) p d) ≡ ok (cons v nil, at rest (q + 1) d)
items_last f v rest p d q reads =
    items_value f v (b']' ∷ rest) rest p d q false
      (λ p' d'. continues-close b']' rest p' d' refl refl) reads

pub items_more :
    (f : ℕ) (v : Canonical) (items : Items) (t : Text) (s : Parser) (p d q : ℕ)
    → parse_value f (at (write v ++ (b',' ∷ t)) p d) ≡ ok (v, at (b',' ∷ t) q d)
    → parse_items f (at t (q + 1) d) ≡ ok (items, s)
    → parse_items (suc f) (at (write v ++ (b',' ∷ t)) p d) ≡ ok (cons v items, s)
items_more f v items t s p d q reads others =
    items_value f v (b',' ∷ t) t p d q true (λ p' d'. continues-comma b']' t p' d') reads
    ∙ >>=-ok (parse_items f) (λ more. pure (cons v more)) (at t (q + 1) d) others

fields_value :
    (f : ℕ) (key : Text) (v : Canonical) (fs : Fields) (behind t : Text) (p d q₀ q : ℕ)
    (more : Bool)
    → Continues b'}' behind t more
    → holds_key key fs ≡ false
    → parse_name (at (write_json_string key ++ (b':' ∷ (write v ++ behind))) p d)
      ≡ ok (key, at (write v ++ behind) q₀ d)
    → parse_value f (at (write v ++ behind) q₀ d) ≡ ok (v, at behind q d)
    → parse_fields (suc f) fs (at (write_json_string key ++ (b':' ∷ (write v ++ behind))) p d)
      ≡ (if more then parse_fields f (put key v fs) else pure (put key v fs)) (at t (q + 1) d)
unfolding parse_fields
fields_value f key v fs behind t p d q₀ q more goes new named reads =
    let next : Fields → Bool → Parse Fields =
      λ fs' more'. if more' then parse_fields f fs' else pure fs' in
    let start = at (write_json_string key ++ (b':' ∷ (write v ++ behind))) p d in
    >>=-ok parse_name
      (λ k. parse_value f >>= λ w. add_entry k w fs >>= λ fs'. continues b'}' >>= next fs') start
      named
    ∙ >>=-ok (parse_value f) (λ w. add_entry key w fs >>= λ fs'. continues b'}' >>= next fs')
        (at (write v ++ behind) q₀ d) reads
    ∙ >>=-ok (add_entry key v fs) (λ fs'. continues b'}' >>= next fs') (at behind q d)
        (added key v fs (at behind q d) new)
    ∙ >>=-ok (continues b'}') (next (put key v fs)) (at behind q d) (goes q d)
  where
    added :
        (key : Text) (v : Canonical) (fs : Fields) (s : Parser)
        → holds_key key fs ≡ false
        → add_entry key v fs s ≡ ok (put key v fs, s)
    added key v fs s new = unfold add_entry in rw new refl

-- What a round over an entry needs.
module _ (f : ℕ) (key : Text) (v : Canonical) (fs : Fields) (valid : is_utf8 key ≡ true)
    (new : holds_key key fs ≡ false) where
  -- The value is read wherever it starts.
  abbrev pub ReadsValue : Text → ℕ → Type 0
  ReadsValue behind d =
      (p : ℕ) → (q : ℕ) × (parse_value f (at (write v ++ behind) p d) ≡ ok (v, at behind q d))

  pub fields_last :
      (rest : Text) (p d : ℕ)
      → ReadsValue (b'}' ∷ rest) d
      → (q : ℕ) × (parse_fields
            (suc f)
            fs
            (at (write_json_string key ++ (b':' ∷ (write v ++ (b'}' ∷ rest)))) p d)
          ≡ ok (put key v fs, at rest q d))
  fields_last rest p d reads =
      let behind = b'}' ∷ rest in
      let (q₀, named) =
        parse_name-write key (write v ++ behind) p d valid
          (first_is-append opens (write v) behind (write-first v)) in
      let (q, read) = reads q₀ in
      (
        q + 1,
        fields_value f key v fs behind rest p d q₀ q false
            (λ p' d'. continues-close b'}' rest p' d' refl refl) new named read,
      )

  pub fields_more :
      (all : Fields) (t rest : Text) (p d : ℕ)
      → ReadsValue (b',' ∷ t) d
      → ((p' : ℕ) → (q : ℕ) × (parse_fields f (put key v fs) (at t p' d) ≡ ok (all, at rest q d)))
      → (q : ℕ) × (parse_fields
            (suc f)
            fs
            (at (write_json_string key ++ (b':' ∷ (write v ++ (b',' ∷ t)))) p d)
          ≡ ok (all, at rest q d))
  fields_more all t rest p d reads others =
      let behind = b',' ∷ t in
      let (q₀, named) =
        parse_name-write key (write v ++ behind) p d valid
          (first_is-append opens (write v) behind (write-first v)) in
      let (q, read) = reads q₀ in
      let (q', rest_read) = others (q + 1) in
      (
        q',
        fields_value f key v fs behind t p d q₀ q true (λ p' d'. continues-comma b'}' t p' d') new
              named read
            ∙ rest_read,
      )

-- An array or an object, from its bracket on.
pub array_empty :
    (f : ℕ) (t : Text) (p d : ℕ)
    → d < 16
    → parse_value (suc (suc f)) (at (b'[' ∷ b']' ∷ t) p d) ≡ ok (array nil, at t (p + 1 + 1) d)
unfolding parse_value scalar_or
array_empty f t p d room =
    >>=-ok (open_with b']')
      (λ empty.
        if empty
        then pure (array nil)
        else (parse_items f >>= λ items. leave >>= λ _. pure (array items)))
      (at (b'[' ∷ b']' ∷ t) p d) (open_with-closed b'[' b']' t p d refl room)

pub object_empty :
    (f : ℕ) (t : Text) (p d : ℕ)
    → d < 16
    → parse_value (suc (suc f)) (at (b'{' ∷ b'}' ∷ t) p d) ≡ ok (object end, at t (p + 1 + 1) d)
unfolding parse_value scalar_or
object_empty f t p d room =
    >>=-ok (open_with b'}')
      (λ empty.
        if empty
        then pure (object end)
        else (parse_fields f end >>= λ fs. leave >>= λ _. pure (object fs)))
      (at (b'{' ∷ b'}' ∷ t) p d) (open_with-closed b'{' b'}' t p d refl room)

pub array_items :
    (f : ℕ) (items : Items) (t rest : Text) (p q d : ℕ)
    → d < 16
    → first_is opens t ≡ true
    → parse_items f (at t (p + 1) (d + 1)) ≡ ok (items, at rest q (d + 1))
    → parse_value (suc (suc f)) (at (b'[' ∷ t) p d) ≡ ok (array items, at rest q d)
unfolding parse_value scalar_or
array_items f items t rest p q d room h reads =
    let close : Parse Canonical = parse_items f >>= λ xs. leave >>= λ _. pure (array xs) in
    >>=-ok (open_with b']') (λ empty. if empty then pure (array nil) else close) (at (b'[' ∷ t) p d)
      (open_with-opens b'[' b']' t p d refl room h)
    ∙ >>=-ok (parse_items f) (λ xs. leave >>= λ _. pure (array xs)) (at t (p + 1) (d + 1)) reads
    ∙ ground arith

pub object_fields :
    (f : ℕ) (fs : Fields) (t rest : Text) (p q d : ℕ)
    → d < 16
    → first_is opens t ≡ true
    → parse_fields f end (at t (p + 1) (d + 1)) ≡ ok (fs, at rest q (d + 1))
    → parse_value (suc (suc f)) (at (b'{' ∷ t) p d) ≡ ok (object fs, at rest q d)
unfolding parse_value scalar_or
object_fields f fs t rest p q d room h reads =
    let close : Parse Canonical = parse_fields f end >>= λ xs. leave >>= λ _. pure (object xs) in
    >>=-ok (open_with b'}') (λ empty. if empty then pure (object end) else close)
      (at (b'{' ∷ t) p d) (open_with-opens b'{' b'}' t p d refl room h)
    ∙ >>=-ok (parse_fields f end) (λ xs. leave >>= λ _. pure (object xs)) (at t (p + 1) (d + 1))
        reads
    ∙ ground arith
