-- ===== src/Protocol/Canon/Accepted/Steps.antt =====
-- What the single steps of the parser promise.
use my_websocket_net.Prelude.{
  ℕ, suc, ◌+◌, ◌-◌, ◌≡◌, ◌≤◌, ◌<◌, refl, sym, subst, Bool, true, false, ◌||◌, List, [], ◌∷◌, arith,
  leb, ◌==◌, if◌then◌else◌, leb→lt,
}
use my_websocket_net.Prelude.Text.{Text, text}
use my_websocket_net.Prelude.Utf8.{is_utf8}
use my_websocket_net.Prelude.Decimal.{is_digit}
use my_websocket_net.Prelude.Result.{ok, err}
use my_websocket_net.Protocol.Canon.Accepted.Maps.{Shallow}
use my_websocket_net.Protocol.Canon.{
  unexpected_byte, too_deep, Canonical, null, bool, str, Items, Fields, IsValue, AreValues,
  AreFields, Ascending,
}
use my_websocket_net.Protocol.Canon.Nesting.{nesting, nesting_items, nesting_fields}
use my_websocket_net.Protocol.Canon.Parser.{
  Parser, at, Parse, pure, ◌>>=◌, skip_ws, skip_one, enter, leave, bump, sees, parse_string,
  parse_number, expect_literal, parse_key, expect_colon, bad_byte,
}
use my_websocket_net.Protocol.Canon.Values.{open_with, parse_name, continues, scalar_or, peeks}
use my_websocket_net.Protocol.Canon.Ensures.{
  Ensures, Ensures->>=, Ensures-if, Ensures-choice, Ensures-weaken, depth_of, size_of, Takes,
  bump-Takes, skip_one-Takes, skip_ws-Takes, expect_literal-Takes,
}
use my_websocket_net.Protocol.Canon.Ensures.Figures.{Scalar}
use my_websocket_net.Protocol.Canon.Ensures.Figures.{parse_number-Takes}
use my_websocket_net.Protocol.Canon.Ensures.Texts.{parse_string-Takes}

-- What a step that reads a value promises.
abbrev pub Value : Parser → Canonical → Parser → Type 0
Value s v s' = IsValue v × Shallow (depth_of s) v × Takes 1 s s'

abbrev pub Several : Parser → Items → Parser → Type 0
Several s items s' = AreValues items × (nesting_items items + depth_of s ≤ 16) × Takes 1 s s'

abbrev pub Entries : Parser → Fields → Parser → Type 0
Entries s fs s' =
    (Ascending fs × AreFields fs) × (nesting_fields fs + depth_of s ≤ 16) × Takes 1 s s'

expect_colon-Takes : (s : Parser) → Ensures (λ _. Takes 1 s) (expect_colon s)
unfolding expect_colon bad_byte
expect_colon-Takes s =
    Ensures->>= (λ _. Takes 1 s) (λ _. Takes 1 s) bump
      (λ b. if b == b':' then pure tt else bad_byte b) s (bump-Takes s)
      λ b t h. Ensures-if (λ _. Takes 1 s) (b == b':') (pure tt) (bad_byte b) t (omega arith) tt

parse_key-Takes :
    (s : Parser) → Ensures (λ key s'. (is_utf8 key ≡ true) × Takes 0 s s') (parse_key s)
unfolding parse_key
parse_key-Takes (at [] p d) = tt
parse_key-Takes (at (b ∷ rest) p d) =
    let s = at (b ∷ rest) p d in
    let P : Text → Parser → Type 0 = λ key s'. (is_utf8 key ≡ true) × Takes 0 s s' in
    Ensures-choice P (b'"' == b) (parse_string s) (err (unexpected_byte b p))
      (Ensures-weaken P (λ key s'. (is_utf8 key ≡ true) × Takes 1 s s') (parse_string s)
        (λ key s' h. (h.0, omega arith)) (parse_string-Takes b rest p d))
      tt

-- Behind a key.
pub parse_name-Takes :
    (s : Parser) → Ensures (λ key s'. (is_utf8 key ≡ true) × Takes 0 s s') (parse_name s)
unfolding parse_name
parse_name-Takes s =
    let P : Text → Parser → Type 0 = λ key s'. (is_utf8 key ≡ true) × Takes 0 s s' in
    let ends : Text → Parse Text = λ key. skip_ws >>= λ _. pure key in
    let colon : Text → Parse Text = λ key. skip_ws >>= λ _. expect_colon >>= λ _. ends key in
    Ensures->>= P (λ _. Takes 0 s) skip_ws (λ _. parse_key >>= colon) s (skip_ws-Takes s)
      λ _ t h.
        Ensures->>= P (λ key u. (is_utf8 key ≡ true) × Takes 0 t u) parse_key colon t
          (parse_key-Takes t)
          λ key u k.
            Ensures->>= P (λ _. Takes 0 u) skip_ws (λ _. expect_colon >>= λ _. ends key) u
              (skip_ws-Takes u)
              λ _ v l.
                Ensures->>= P (λ _. Takes 1 v) expect_colon (λ _. ends key) v (expect_colon-Takes v)
                  λ _ w m.
                    Ensures->>= P (λ _. Takes 0 w) skip_ws (λ _. pure key) w (skip_ws-Takes w)
                      λ _ x n. (k.0, omega arith)

-- The brackets: whether they were empty, and the state within or behind them.
abbrev pub Opened : Parser → Bool → Parser → Type 0
Opened s empty s' =
    (depth_of s < 16)
    × (depth_of s' ≡ (if empty then depth_of s else suc (depth_of s)))
    × (size_of s' + 1 ≤ size_of s)

pub leave-Takes :
    (s : Parser)
    → Ensures (λ _ s'. (depth_of s' ≡ depth_of s - 1) × (size_of s' ≤ size_of s)) (leave s)
leave-Takes (at rest p d) = omega arith

closes-Opened :
    (d : ℕ) (close : ℕ) (s t : Parser)
    → depth_of s < 16
    → depth_of t ≡ suc (depth_of s)
    → size_of t + 1 ≤ size_of s
    → Ensures (Opened s) (
        (peeks close >>= λ closed.
        if closed then (skip_one >>= λ _. leave >>= λ _. pure true) else pure false)
          t)
closes-Opened d close s t shallow deeper taken =
    Ensures-if (Opened s) (sees (◌==◌ close) t) (skip_one >>= λ _. leave >>= λ _. pure true)
      (pure false) t
      (Ensures->>= (Opened s) (λ _. Takes 0 t) skip_one (λ _. leave >>= λ _. pure true) t
        (skip_one-Takes t)
        λ _ u h.
          Ensures->>= (Opened s) (λ _ v. (depth_of v ≡ depth_of u - 1) × (size_of v ≤ size_of u))
            leave (λ _. pure true) u (leave-Takes u) λ _ v k. omega arith)
      (omega arith)

entered :
    (rest : List ℕ) (p d : ℕ)
    → Ensures (λ _ t. (d < 16) × (t ≡ at rest p (d + 1))) (enter (at rest p d))
unfolding enter
entered rest p d = either (leb 16 d) refl
  where
    either :
        (b : Bool)
        → leb 16 d ≡ b
        → Ensures
            (λ _ t. (d < 16) × (t ≡ at rest p (d + 1)))
            (if b then err too_deep else ok (tt, at rest p (d + 1)))
    either true h = tt
    either false h = (leb→lt 16 d h, refl)

pub open_with-Opened :
    (close b : ℕ) (rest : List ℕ) (p d : ℕ)
    → Ensures (Opened (at (b ∷ rest) p d)) (open_with close (at (b ∷ rest) p d))
unfolding open_with
open_with-Opened close b rest p d =
    let s = at (b ∷ rest) p d in
    let closes : Parse Bool = peeks close >>= λ closed.
    if closed then (skip_one >>= λ _. leave >>= λ _. pure true) else pure false in
    let Entered : Unit {0} → Parser → Type 0 = λ _ t. (d < 16) × (t ≡ at (b ∷ rest) p (d + 1)) in
    Ensures->>= (Opened s) Entered enter (λ _. skip_one >>= λ _. skip_ws >>= λ _. closes) s
      (entered (b ∷ rest) p d)
      λ _ t h.
        subst (λ x. Ensures (Opened s) ((skip_one >>= λ _. skip_ws >>= λ _. closes) x)) (sym h.1)
          (Ensures->>= (Opened s) (λ _. Takes 0 (at rest (p + 1) (d + 1))) skip_ws (λ _. closes)
            (at rest (p + 1) (d + 1)) (skip_ws-Takes (at rest (p + 1) (d + 1)))
            λ _ u k. closes-Opened d close s u h.0 (omega arith) (omega arith))

pub continues-Takes : (close : ℕ) (s : Parser) → Ensures (λ _. Takes 1 s) (continues close s)
unfolding continues bad_byte
continues-Takes close s =
    let next : ℕ → Parse Bool =
      λ b. if b == b',' then pure true else if b == close then pure false else bad_byte b in
    Ensures->>= (λ _. Takes 1 s) (λ _. Takes 0 s) skip_ws (λ _. bump >>= next) s (skip_ws-Takes s)
      λ _ t h.
        Ensures->>= (λ _. Takes 1 s) (λ _. Takes 1 t) bump next t (bump-Takes t)
          λ b u k.
            Ensures-if (λ _. Takes 1 s) (b == b',') (pure true)
              (if b == close then pure false else bad_byte b) u (omega arith)
              (Ensures-if (λ _. Takes 1 s) (b == close) (pure false) (bad_byte b) u (omega arith)
                tt)

literal :
    (c : ℕ) (word : Text) (v : Canonical) (s : Parser)
    → IsValue v
    → nesting v ≡ 0
    → depth_of s ≤ 16
    → Ensures (Value s) (expect_literal (c ∷ word) v s)
literal c word v s valid flat room =
    Ensures-weaken (Value s) (λ a s'. (a ≡ v) × Takes 1 s s') (expect_literal (c ∷ word) v s)
      (λ a s' h. (
        subst IsValue (sym h.0) valid,
        subst (Shallow (depth_of s)) (sym h.0) (omega arith),
        omega arith,
      ))
      (expect_literal-Takes c word v s)

string-Value :
    (b : ℕ) (rest : List ℕ) (p d : ℕ)
    → d ≤ 16
    → Ensures
        (Value (at (b ∷ rest) p d))
        ((parse_string >>= λ bytes. pure (str bytes)) (at (b ∷ rest) p d))
unfolding IsValue nesting
string-Value b rest p d room =
    let s = at (b ∷ rest) p d in
    Ensures->>= (Value s) (λ bytes s'. (is_utf8 bytes ≡ true) × Takes 1 s s') parse_string
      (λ bytes. pure (str bytes)) s (parse_string-Takes b rest p d)
      λ bytes t h. (h.0, omega arith, omega arith)

number-Value :
    (b : ℕ) (rest : List ℕ) (p d : ℕ)
    → d ≤ 16
    → Ensures (Value (at (b ∷ rest) p d)) (parse_number (at (b ∷ rest) p d))
number-Value b rest p d room =
    let s = at (b ∷ rest) p d in
    Ensures-weaken (Value s) (λ v s'. Scalar v × Takes 1 s s') (parse_number s)
      (λ v s' h. (h.0.0, omega arith, omega arith)) (parse_number-Takes s)

-- A value, if both kinds of brackets give one.
pub scalar_or-Value :
    (a o : Parse Canonical) (b : ℕ) (rest : List ℕ) (p d : ℕ)
    → d ≤ 16
    → Ensures (Value (at (b ∷ rest) p d)) (a (at (b ∷ rest) p d))
    → Ensures (Value (at (b ∷ rest) p d)) (o (at (b ∷ rest) p d))
    → Ensures (Value (at (b ∷ rest) p d)) (scalar_or a o (at (b ∷ rest) p d))
unfolding scalar_or
scalar_or-Value a o b rest p d room arrays objects =
    let s = at (b ∷ rest) p d in
    Ensures-choice (Value s) (b == b'n') _ _
      (literal b'n' (text "ull") null s (unfold IsValue in tt) (unfold nesting in refl) room)
      (Ensures-choice (Value s) (b == b't') _ _
        (literal b't' (text "rue") (bool true) s (unfold IsValue in tt) (unfold nesting in refl)
          room)
        (Ensures-choice (Value s) (b == b'f') _ _
          (literal b'f' (text "alse") (bool false) s (unfold IsValue in tt) (unfold nesting in refl)
            room)
          (Ensures-choice (Value s) (b == b'"') _ _ (string-Value b rest p d room) (
            Ensures-choice (Value s) (b == b'[') _ _ arrays (
              Ensures-choice (Value s) (b == b'{') _ _ objects (
                Ensures-choice (Value s) (b == b'-' || is_digit b) _ _
                  (number-Value b rest p d room) tt))))))
