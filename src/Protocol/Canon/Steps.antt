-- ===== src/Protocol/Canon/Steps.antt =====
-- Reading the pieces between the values of a printed array or object.
use my_websocket_net.Prelude.{
  ℕ, ◌+◌, ◌≡◌, ◌<◌, refl, ◌∙◌, Bool, true, false, ◌||◌, [], ◌∷◌, ◌++◌, arith, leb, ◌==◌,
  if◌then◌else◌,
}
use my_websocket_net.Prelude.Text.{Text, text, same_text}
use my_websocket_net.Prelude.Utf8.{is_utf8}
use my_websocket_net.Prelude.Decimal.{is_digit}
use my_websocket_net.Prelude.Result.{ok}
use my_websocket_net.Protocol.Canon.{
  Canonical, null, bool, int, str, array, object, write, write_json_string, print_int,
}
use my_websocket_net.Protocol.Canon.Parser.{
  at, pure, >>=-ok, ◌>>=◌, is_ws, skip_ws, skip_one, sees, bump, parse_key, expect_colon,
  expect_literal, parse_string, parse_number, enter, leave, Parse,
}
use my_websocket_net.Protocol.Canon.Strings.{parse_string-write_json_string}
use my_websocket_net.Protocol.Canon.Numbers.{first_is, print_int-first}
use my_websocket_net.Protocol.Canon.Values.{scalar_or, open_with, parse_name, continues, peeks}

-- What a printed value starts with.
abbrev pub opens : ℕ → Bool
opens c =
    c == b'n'
    || c == b't'
    || c == b'f'
    || c == b'"'
    || c == b'['
    || c == b'{'
    || c == b'-'
    || is_digit c

pub first_is-append :
    (test : ℕ → Bool) (t rest : Text) → first_is test t ≡ true → first_is test (t ++ rest) ≡ true
first_is-append test [] rest h = cc
first_is-append test (c ∷ t) rest h = h

signs_open : (t : Text) → first_is (λ c. c == b'-' || is_digit c) t ≡ true → first_is opens t ≡ true
signs_open [] h = cc
signs_open (c ∷ t) h = ground arith

pub write-first : (v : Canonical) → first_is opens (write v) ≡ true
unfolding write write_json_string
write-first null = refl
write-first (bool true) = refl
write-first (bool false) = refl
write-first (int n) = signs_open (print_int n) (print_int-first n)
write-first (str s) = refl
write-first (array items) = refl
write-first (object fs) = refl

-- No white space is skipped before what opens a value, nor is a bracket seen.
pub skip_ws-opens :
    (t : Text) (p d : ℕ) → first_is opens t ≡ true → skip_ws (at t p d) ≡ ok (tt, at t p d)
unfolding skip_ws
skip_ws-opens [] p d h = cc
skip_ws-opens (c ∷ t) p d h = let black : is_ws c ≡ false = ground arith in rw black refl

pub sees-opens :
    (close : ℕ) (t : Text) (p d : ℕ)
    → opens close ≡ false
    → first_is opens t ≡ true
    → sees (◌==◌ close) (at t p d) ≡ false
sees-opens close [] p d h k = cc
sees-opens close (c ∷ t) p d h k = ground arith

enter_lem : (t : Text) (p d : ℕ) → d < 16 → enter (at t p d) ≡ ok (tt, at t p (d + 1))
unfolding enter
enter_lem t p d room = let deep : leb 16 d ≡ false = ground arith in rw deep refl

skip_ws-black :
    (c : ℕ) (t : Text) (p d : ℕ)
    → is_ws c ≡ false
    → skip_ws (at (c ∷ t) p d) ≡ ok (tt, at (c ∷ t) p d)
unfolding skip_ws
skip_ws-black c t p d black = rw black refl

-- `[` or `{` before something that opens a value.
pub open_with-opens :
    (bracket close : ℕ) (t : Text) (p d : ℕ)
    → opens close ≡ false
    → d < 16
    → first_is opens t ≡ true
    → open_with close (at (bracket ∷ t) p d) ≡ ok (false, at t (p + 1) (d + 1))
unfolding open_with
open_with-opens bracket close t p d h room k =
    let closes : Bool → Parse Bool =
      λ closed. if closed then (skip_one >>= λ _. leave >>= λ _. pure true) else pure false in
    >>=-ok enter (λ _. skip_one >>= λ _. skip_ws >>= λ _. peeks close >>= closes)
      (at (bracket ∷ t) p d) (enter_lem _ p d room)
    ∙ >>=-ok skip_ws (λ _. peeks close >>= closes) (at t (p + 1) (d + 1))
        (skip_ws-opens t (p + 1) (d + 1) k)
    ∙ rw (sees-opens close t (p + 1) (d + 1) h k) refl

-- An empty array or object.
pub open_with-closed :
    (bracket close : ℕ) (t : Text) (p d : ℕ)
    → is_ws close ≡ false
    → d < 16
    → open_with close (at (bracket ∷ close ∷ t) p d) ≡ ok (true, at t (p + 1 + 1) d)
unfolding open_with
open_with-closed bracket close t p d black room =
    let closes : Bool → Parse Bool =
      λ closed. if closed then (skip_one >>= λ _. leave >>= λ _. pure true) else pure false in
    >>=-ok enter (λ _. skip_one >>= λ _. skip_ws >>= λ _. peeks close >>= closes)
      (at (bracket ∷ close ∷ t) p d) (enter_lem _ p d room)
    ∙ >>=-ok skip_ws (λ _. peeks close >>= closes) (at (close ∷ t) (p + 1) (d + 1))
        (skip_ws-black close t (p + 1) (d + 1) black)
    ∙ ground arith

-- Behind a value.
pub continues-comma :
    (close : ℕ) (t : Text) (p d : ℕ)
    → continues close (at (b',' ∷ t) p d) ≡ ok (true, at t (p + 1) d)
unfolding continues skip_ws bump
continues-comma close t p d = refl

pub continues-close :
    (close : ℕ) (t : Text) (p d : ℕ)
    → is_ws close ≡ false
    → (close == b',') ≡ false
    → continues close (at (close ∷ t) p d) ≡ ok (false, at t (p + 1) d)
unfolding continues skip_ws bump
continues-close close t p d black other = rw black (ground (arith, other))

skip_ws-quote :
    (key rest : Text) (p d : ℕ)
    → skip_ws (at (write_json_string key ++ rest) p d)
      ≡ ok (tt, at (write_json_string key ++ rest) p d)
unfolding skip_ws write_json_string
skip_ws-quote key rest p d = refl

parse_key-quote :
    (key rest : Text) (p d : ℕ)
    → parse_key (at (write_json_string key ++ rest) p d)
      ≡ parse_string (at (write_json_string key ++ rest) p d)
unfolding parse_key write_json_string
parse_key-quote key rest p d = refl

expect_colon-skips :
    (k : Parse Text) (t : Text) (q d : ℕ)
    → (skip_ws >>= λ _. expect_colon >>= λ _. skip_ws >>= λ _. k) (at (b':' ∷ t) q d)
      ≡ (skip_ws >>= λ _. k) (at t (q + 1) d)
unfolding skip_ws expect_colon bump
expect_colon-skips k t q d = refl

-- A key and its colon.
pub parse_name-write :
    (key t : Text) (p d : ℕ)
    → is_utf8 key ≡ true
    → first_is opens t ≡ true
    → (q : ℕ) × (parse_name (at (write_json_string key ++ (b':' ∷ t)) p d) ≡ ok (key, at t q d))
unfolding parse_name
parse_name-write key t p d valid h =
    let (q, reads) = parse_string-write_json_string key (b':' ∷ t) p d valid in
    let s = at (write_json_string key ++ (b':' ∷ t)) p d in
    let colon : Text → Parse Text =
      λ k. skip_ws >>= λ _. expect_colon >>= λ _. skip_ws >>= λ _. pure k in
    (
      q + 1,
      >>=-ok skip_ws (λ _. parse_key >>= colon) s (skip_ws-quote key (b':' ∷ t) p d)
          ∙ >>=-ok parse_key colon s (parse_key-quote key (b':' ∷ t) p d ∙ reads)
          ∙ expect_colon-skips (pure key) t q d
          ∙ >>=-ok skip_ws (λ _. pure key) (at t (q + 1) d) (skip_ws-opens t (q + 1) d h),
    )

-- What `scalar_or` does before a printed number.
pub scalar_or-number :
    (a o : Parse Canonical) (t rest : Text) (p d : ℕ)
    → first_is (λ c. c == b'-' || is_digit c) t ≡ true
    → scalar_or a o (at (t ++ rest) p d) ≡ parse_number (at (t ++ rest) p d)
unfolding scalar_or
scalar_or-number a o [] rest p d h = cc
scalar_or-number a o (c ∷ t) rest p d h = ground arith

pub scalar_or-literal :
    (a o : Parse Canonical) (rest : Text) (p d : ℕ)
    → (scalar_or a o (at (text "null" ++ rest) p d) ≡ ok (null, at rest (p + 4) d))
      × (scalar_or a o (at (text "true" ++ rest) p d) ≡ ok (bool true, at rest (p + 4) d))
      × (scalar_or a o (at (text "false" ++ rest) p d) ≡ ok (bool false, at rest (p + 5) d))
unfolding scalar_or expect_literal same_text
scalar_or-literal a o rest p d = (ground arith, ground arith, ground arith)
