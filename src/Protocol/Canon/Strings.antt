-- ===== src/Protocol/Canon/Strings.antt =====
-- Reading a string literal that `write_json_string` wrote.
use my_websocket_net.Prelude.{
  ℕ, zero, suc, ◌+◌, ◌/◌, ◌%◌, ◌≡◌, ◌≤◌, ◌<◌, refl, ap, ◌∙◌, true, false, some, [], ◌∷◌, ◌++◌,
  arith, ltb, ◌==◌, if◌then◌else◌, length, append_assoc, length-append, Bool-cases, inl, inr,
  ltb→lt,
}
use my_websocket_net.Prelude.Text.{Text}
use my_websocket_net.Prelude.Utf8.{is_utf8, encode_utf8}
use my_websocket_net.Prelude.Result.{Result, ok, err}
use my_websocket_net.Protocol.Canon.{
  CanonError, invalid_utf8, hex_digit, write_char, write_chars, write_json_string,
}
use my_websocket_net.Protocol.Canon.Parser.{
  Parser, at, pure, fail, >>=-ok, bump, hex_value, read_hex4, parse_escape, parse_chars,
  parse_string, string_piece, escaped, simple_escape, unicode_escape,
}

hex_value-hex_digit : (n : ℕ) → n < 16 → hex_value (hex_digit n) ≡ some n
unfolding hex_value hex_digit
hex_value-hex_digit n h = ground arith

hex_value-zero : hex_value b'0' ≡ some 0
unfolding hex_value
hex_value-zero = refl

-- The four digits of a control character.
read_hex4_low :
    (c : ℕ) (rest : Text) (p d : ℕ)
    → c < 256
    → read_hex4 (at (b'0' ∷ b'0' ∷ hex_digit (c / 16) ∷ hex_digit (c % 16) ∷ rest) p d)
      ≡ ok (c, at rest (p + 1 + 1 + 1 + 1) d)
unfolding read_hex4
read_hex4_low c rest p d h =
    let high = hex_value-hex_digit (c / 16) (omega arith) in
    let low = hex_value-hex_digit (c % 16) (omega arith) in
    ground (arith, hex_value-zero, high, low)

-- What a round of the loop makes of the rest.
abbrev then_char : ℕ → Result (Text × Parser) CanonError → Result (Text × Parser) CanonError
then_char c r = elim r [ err e ↦ err e | ok (more, s) ↦ ok (c ∷ more, s) ]

-- A round that starts with `b` and takes the character `c`.
piece_round :
    (f b c : ℕ) (tail rest : Text) (p d q : ℕ)
    → (b == b'"') ≡ false
    → string_piece b (at tail (p + 1) d) ≡ ok (c ∷ [], at rest q d)
    → parse_chars (suc f) (at (b ∷ tail) p d) ≡ then_char c (parse_chars f (at rest q d))
unfolding parse_chars bump
piece_round f b c tail rest p d q quote reads = rw quote (
    ap {A = Result (Text × Parser) CanonError} {B = Result (Text × Parser) CanonError}
      (λ r. elim r [
        | err e ↦ err e
        | ok (piece, s) ↦ elim (parse_chars f s) [
          | err e ↦ err e
          | ok (more, s') ↦ ok (piece ++ more, s')
        ]
      ])
      reads)

-- A round starts with `b`, leaves `tail`, and reads `c` off it.
abbrev Round : ℕ → Text → ℕ → ℕ → Type 0
Round c rest p d =
    (b : ℕ) × (tail : Text) × (q : ℕ) × (write_char c ++ rest ≡ b ∷ tail)
    × ((b == b'"') ≡ false)
    × (string_piece b (at tail (p + 1) d) ≡ ok (c ∷ [], at rest q d))

short_escape :
    (c letter : ℕ) (rest : Text) (p d : ℕ)
    → write_char c ≡ b'\\' ∷ letter ∷ []
    → escaped (p + 1) letter (at rest (p + 1 + 1) d) ≡ ok (c ∷ [], at rest (p + 1 + 1) d)
    → Round c rest p d
unfolding string_piece parse_escape bump
short_escape c letter rest p d written reads =
    (b'\\', letter ∷ rest, p + 1 + 1, ap (λ w. w ++ rest) written, refl, reads)

control_escape :
    (c : ℕ) (rest : Text) (p d : ℕ)
    → write_char c ≡ b'\\' ∷ b'u' ∷ b'0' ∷ b'0' ∷ hex_digit (c / 16) ∷ hex_digit (c % 16) ∷ []
    → c < 0x20
    → Round c rest p d
unfolding string_piece parse_escape bump escaped simple_escape unicode_escape encode_utf8
control_escape c rest p d written low =
    let digits = b'0' ∷ b'0' ∷ hex_digit (c / 16) ∷ hex_digit (c % 16) ∷ rest in
    (
      b'\\',
      b'u' ∷ digits,
      p + 1 + 1 + 1 + 1 + 1 + 1,
      ap (λ w. w ++ rest) written,
      refl,
      ground (arith, read_hex4_low c rest (p + 1 + 1) d),
    )

plain_char :
    (c : ℕ) (rest : Text) (p d : ℕ)
    → write_char c ≡ c ∷ []
    → (c == b'"') ≡ false
    → (c == b'\\') ≡ false
    → ltb c 0x20 ≡ false
    → Round c rest p d
unfolding string_piece
plain_char c rest p d written quote slash control =
    (c, rest, p + 1, ap (λ w. w ++ rest) written, quote, rw (slash, control) refl)

string_piece-write_char : (c : ℕ) (rest : Text) (p d : ℕ) → Round c rest p d
unfolding write_char escaped simple_escape
string_piece-write_char c rest p d = elim (Bool-cases (c == b'"')) [
  | inl e ↦ short_escape c b'"' rest p d (ground arith) (ground arith)
  | inr e₀ ↦ elim (Bool-cases (c == b'\\')) [
    | inl e ↦ short_escape c b'\\' rest p d (ground arith) (ground arith)
    | inr e₁ ↦ elim (Bool-cases (c == 0x08)) [
      | inl e ↦ short_escape c b'b' rest p d (ground arith) (ground arith)
      | inr e₂ ↦ elim (Bool-cases (c == 0x0c)) [
        | inl e ↦ short_escape c b'f' rest p d (ground arith) (ground arith)
        | inr e₃ ↦ elim (Bool-cases (c == 0x0a)) [
          | inl e ↦ short_escape c b'n' rest p d (ground arith) (ground arith)
          | inr e₄ ↦ elim (Bool-cases (c == 0x0d)) [
            | inl e ↦ short_escape c b'r' rest p d (ground arith) (ground arith)
            | inr e₅ ↦ elim (Bool-cases (c == 0x09)) [
              | inl e ↦ short_escape c b't' rest p d (ground arith) (ground arith)
              | inr e₆ ↦ elim (Bool-cases (ltb c 0x20)) [
                | inl e ↦ control_escape c rest p d (ground arith) (ltb→lt c 0x20 e)
                | inr e ↦ plain_char c rest p d (ground arith) e₀ e₁ e
              ]
            ]
          ]
        ]
      ]
    ]
  ]
]

parse_chars-write_chars :
    (s rest : Text) (f p d : ℕ)
    → length s < f
    → (q : ℕ) × (parse_chars f (at (write_chars s ++ (b'"' ∷ rest)) p d) ≡ ok (s, at rest q d))
unfolding write_chars
parse_chars-write_chars s rest zero p d h = absurd (omega arith)
parse_chars-write_chars [] rest (suc f) p d h = (p + 1, unfold parse_chars in unfold bump in refl)
parse_chars-write_chars (c ∷ s) rest (suc f) p d h =
    let (b, tail, q, starts, quote, reads) =
      string_piece-write_char c (write_chars s ++ (b'"' ∷ rest)) p d in
    let (q', ends) = parse_chars-write_chars s rest f q d (omega arith) in
    (
      q',
      rw (append_assoc (write_char c) (write_chars s) (b'"' ∷ rest), starts)
          (piece_round f b c tail (write_chars s ++ (b'"' ∷ rest)) p d q quote reads
            ∙ ap (then_char c) ends),
    )

length-write_chars : (s : Text) → length s ≤ length (write_chars s)
unfolding write_chars write_char
length-write_chars [] = omega arith
length-write_chars (c ∷ s) = ground (arith, length-write_chars s)

parse_string_lem :
    (s tail rest : Text) (p d q : ℕ)
    → parse_chars (suc (suc (length tail))) (at tail (p + 1) d) ≡ ok (s, at rest q d)
    → is_utf8 s ≡ true
    → parse_string (at (b'"' ∷ tail) p d) ≡ ok (s, at rest q d)
unfolding parse_string
parse_string_lem s tail rest p d q reads valid =
    >>=-ok (parse_chars (suc (suc (length tail))))
      (λ bytes. if is_utf8 bytes then pure bytes else fail invalid_utf8) (at tail (p + 1) d) reads
    ∙ rw valid refl

-- A string literal is read back, and what follows it is left.
pub parse_string-write_json_string :
    (s rest : Text) (p d : ℕ)
    → is_utf8 s ≡ true
    → (q : ℕ) × (parse_string (at (write_json_string s ++ rest) p d) ≡ ok (s, at rest q d))
unfolding write_json_string
parse_string-write_json_string s rest p d valid =
    let tail = write_chars s ++ (b'"' ∷ rest) in
    let long : length s < suc (suc (length tail)) =
      omega (arith, length-write_chars s, length-append (write_chars s) (b'"' ∷ rest)) in
    let (q, reads) = parse_chars-write_chars s rest (suc (suc (length tail))) (p + 1) d long in
    (
      q,
      ap (λ t. parse_string (at (b'"' ∷ t) p d)) (append_assoc (write_chars s) (b'"' ∷ []) rest)
          ∙ parse_string_lem s tail rest p d q reads valid,
    )
