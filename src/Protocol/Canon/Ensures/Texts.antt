-- ===== src/Protocol/Canon/Ensures/Texts.antt =====
-- What reading a string promises.
use my_websocket_net.Prelude.{
  ℕ, zero, suc, ◌+◌, ◌-◌, ◌*◌, ◌%◌, ◌≡◌, ◌<◌, true, ◌&&◌, Option, none, some, List, [], ◌∷◌, ◌++◌,
  arith, ltb, leb, ◌==◌, if◌then◌else◌, length, Bool-cases, inl, inr,
}
use my_websocket_net.Prelude.Text.{Text}
use my_websocket_net.Prelude.Utf8.{is_utf8, encode_utf8}
use my_websocket_net.Prelude.Result.{Result, ok, err}
use my_websocket_net.Protocol.Canon.{
  CanonError, unexpected_byte, invalid_utf8, invalid_unicode_escape, invalid_escape,
}
use my_websocket_net.Protocol.Canon.Parser.{
  Parser, at, Parse, pure, fail, ◌>>=◌, position, bump, hex_value, read_hex, read_hex4,
  low_surrogate, unicode_escape, simple_escape, escaped, parse_escape, string_piece, parse_chars,
  parse_string,
}
use my_websocket_net.Protocol.Canon.Ensures.{
  Ensures, Ensures->>=, Ensures-if, Ensures-choice, Ensures-weaken, size_of, Takes, bump-Takes,
}

hex_round :
    (start digit : ℕ) (found : Option ℕ) (k : ℕ → Result (ℕ × Parser) CanonError) (s : Parser)
    → ((d : ℕ) → Ensures (λ _. Takes 0 s) (k d))
    → Ensures
        (λ _. Takes 0 s)
        (elim found [ none ↦ err (invalid_unicode_escape start) | some d ↦ k d ])
hex_round start digit none k s h = tt
hex_round start digit (some d) k s h = h d

Takes-trans : (m n : ℕ) (s t u : Parser) → Takes m s t → Takes n t u → Takes (m + n) s u
Takes-trans m n s t u h k = omega arith

read_hex-Takes :
    (start n value : ℕ) (s : Parser) → Ensures (λ _. Takes 0 s) (read_hex start n value s)
unfolding read_hex bump
read_hex-Takes start zero value s = omega arith
read_hex-Takes start (suc n) value (at [] p d) = tt
read_hex-Takes start (suc n) value (at (b ∷ rest) p d) =
    hex_round start b (hex_value b)
      (λ digit. read_hex start n (value * 16 % 65536 + digit) (at rest (p + 1) d))
      (at (b ∷ rest) p d)
      (λ digit.
        Ensures-weaken (λ _. Takes 0 (at (b ∷ rest) p d)) (λ _. Takes 0 (at rest (p + 1) d))
          (read_hex start n (value * 16 % 65536 + digit) (at rest (p + 1) d))
          (λ _ s' h. omega arith)
          (read_hex-Takes start n (value * 16 % 65536 + digit) (at rest (p + 1) d)))

read_hex4-Takes : (s : Parser) → Ensures (λ _. Takes 0 s) (read_hex4 s)
unfolding read_hex4
read_hex4-Takes s = read_hex-Takes (position s) 4 0 s

-- After what took nothing back, a step that takes nothing back.
then_Takes :
    {A B : Type 0} (n : ℕ) (m : Parse A) (k : A → Parse B) (s : Parser)
    → Ensures (λ _. Takes n s) (m s)
    → ((a : A) (t : Parser) → Ensures (λ _. Takes 0 t) (k a t))
    → Ensures (λ _. Takes n s) ((m >>= k) s)
then_Takes n m k s first later =
    Ensures->>= (λ _. Takes n s) (λ _. Takes n s) m k s first
      (λ a t taken.
        Ensures-weaken (λ _. Takes n s) (λ _. Takes 0 t) (k a t) (λ _ u h. omega arith) (later a t))

low_surrogate-Takes :
    (esc_pos high : ℕ) (s : Parser) → Ensures (λ _. Takes 0 s) (low_surrogate esc_pos high s)
unfolding low_surrogate
low_surrogate-Takes esc_pos high s =
    let bad = invalid_unicode_escape esc_pos in
    let joins : ℕ → Parse Text = λ second.
      if leb 0xdc00 second && leb second 0xdfff
      then pure (encode_utf8 (0x10000 + (high - 0xd800) * 0x400 + (second - 0xdc00)))
      else fail bad in
    then_Takes 0 bump
      (λ slash. (if slash == b'\\' then bump else fail bad) >>= λ letter.
        (if letter == b'u' then read_hex4 else fail bad) >>= joins)
      s
      (Ensures-weaken (λ _. Takes 0 s) (λ _. Takes 1 s) (bump s) (λ _ u h. omega arith)
        (bump-Takes s))
      λ slash t.
        then_Takes 0 (if slash == b'\\' then bump else fail bad)
          (λ letter. (if letter == b'u' then read_hex4 else fail bad) >>= joins) t
          (Ensures-if (λ _. Takes 0 t) (slash == b'\\') bump (fail bad) t
            (Ensures-weaken (λ _. Takes 0 t) (λ _. Takes 1 t) (bump t) (λ _ u h. omega arith)
              (bump-Takes t))
            tt)
          λ letter u.
            then_Takes 0 (if letter == b'u' then read_hex4 else fail bad) joins u
              (Ensures-if (λ _. Takes 0 u) (letter == b'u') read_hex4 (fail bad) u
                (read_hex4-Takes u) tt)
              λ second v.
                Ensures-if (λ _. Takes 0 v) (leb 0xdc00 second && leb second 0xdfff)
                  (pure (encode_utf8 (0x10000 + (high - 0xd800) * 0x400 + (second - 0xdc00))))
                  (fail bad) v (omega arith) tt

unicode_escape-Takes :
    (esc_pos first : ℕ) (s : Parser) → Ensures (λ _. Takes 0 s) (unicode_escape esc_pos first s)
unfolding unicode_escape
unicode_escape-Takes esc_pos first s =
    let bad : Parse Text = fail (invalid_unicode_escape esc_pos) in
    let low = leb 0xdc00 first && leb first 0xdfff in
    Ensures-if (λ _. Takes 0 s) (leb 0xd800 first && leb first 0xdbff) (low_surrogate esc_pos first)
      (if low then bad else pure (encode_utf8 first)) s (low_surrogate-Takes esc_pos first s)
      (Ensures-if (λ _. Takes 0 s) low bad (pure (encode_utf8 first)) s tt (omega arith))

escaped-Takes :
    (esc_pos letter : ℕ) (s : Parser) → Ensures (λ _. Takes 0 s) (escaped esc_pos letter s)
unfolding escaped
escaped-Takes esc_pos letter s = either (simple_escape letter) s other (
    Ensures-if (λ _. Takes 0 s) (letter == b'u') (read_hex4 >>= unicode_escape esc_pos)
      (fail (invalid_escape esc_pos)) s
      (then_Takes 0 read_hex4 (unicode_escape esc_pos) s (read_hex4-Takes s)
        (unicode_escape-Takes esc_pos))
      tt)
  where
    other : Result (Text × Parser) CanonError
    other =
        (if letter == b'u'
            then (read_hex4 >>= unicode_escape esc_pos)
            else fail (invalid_escape esc_pos))
          s

    either :
        (found : Option ℕ) (t : Parser) (r : Result (Text × Parser) CanonError)
        → Ensures (λ _. Takes 0 t) r
        → Ensures (λ _. Takes 0 t) (elim found [ some b ↦ ok (b ∷ [], t) | none ↦ r ])
    either (some b) t r h = omega arith
    either none t r h = h

parse_escape-Takes : (s : Parser) → Ensures (λ _. Takes 0 s) (parse_escape s)
unfolding parse_escape
parse_escape-Takes s =
    then_Takes 0 bump (escaped (position s)) s
      (Ensures-weaken (λ _. Takes 0 s) (λ _. Takes 1 s) (bump s) (λ _ u h. omega arith)
        (bump-Takes s))
      (escaped-Takes (position s))

string_piece-Takes : (b : ℕ) (s : Parser) → Ensures (λ _. Takes 0 s) (string_piece b s)
unfolding string_piece
string_piece-Takes b s =
    let bad = err (unexpected_byte b (position s - 1)) in
    Ensures-choice (λ _. Takes 0 s) (b == b'\\') (parse_escape s)
      (if ltb b 0x20 then bad else ok (b ∷ [], s)) (parse_escape-Takes s)
      (Ensures-choice (λ _. Takes 0 s) (ltb b 0x20) bad (ok (b ∷ [], s)) tt (omega arith))

parse_chars-Takes :
    (f : ℕ) (s : Parser) → size_of s < f → Ensures (λ _. Takes 0 s) (parse_chars f s)
unfolding parse_chars bump
parse_chars-Takes zero s h = absurd (omega arith)
parse_chars-Takes (suc f) (at [] p d) h = tt
parse_chars-Takes (suc f) (at (b ∷ rest) p d) h =
    let s = at (b ∷ rest) p d in
    let t = at rest (p + 1) d in
    let more : Text → Parse Text = λ piece. parse_chars f >>= λ later. pure (piece ++ later) in
    Ensures-choice (λ _. Takes 0 s) (b == b'"') (ok ([], t)) ((string_piece b >>= more) t)
      (omega arith)
      (Ensures->>= (λ _. Takes 0 s) (λ _. Takes 0 t) (string_piece b) more t
        (string_piece-Takes b t)
        λ piece u taken.
          Ensures->>= (λ _. Takes 0 s) (λ _. Takes 0 u) (parse_chars f)
            (λ later. pure (piece ++ later)) u (parse_chars-Takes f u (omega arith))
            λ later v taken'. omega arith)

-- A string that is accepted is UTF-8.
pub parse_string-Takes :
    (b : ℕ) (rest : List ℕ) (p d : ℕ)
    → Ensures
        (λ bytes s'. (is_utf8 bytes ≡ true) × Takes 1 (at (b ∷ rest) p d) s')
        (parse_string (at (b ∷ rest) p d))
unfolding parse_string
parse_string-Takes b rest p d =
    let s = at (b ∷ rest) p d in
    let t = at rest (p + 1) d in
    let f = suc (length (b ∷ rest)) in
    let check : Text → Parse Text =
      λ bytes. if is_utf8 bytes then pure bytes else fail invalid_utf8 in
    Ensures->>= (λ bytes s'. (is_utf8 bytes ≡ true) × Takes 1 s s') (λ _. Takes 0 t) (parse_chars f)
      check t (parse_chars-Takes f t (omega arith))
      λ bytes u taken. elim (Bool-cases (is_utf8 bytes)) [
        | inl valid ↦ rw valid (valid, omega arith)
        | inr bad ↦ rw bad tt
      ]
