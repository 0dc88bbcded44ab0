-- ===== src/Socks/Wire/Agreement/Targets.antt =====
-- The target of a datagram and the target of a request.
use my_websocket_net.Prelude.{
  ℕ, ◌+◌, ◌≡◌, ◌≤◌, ◌<◌, refl, sym, ap, subst, ◌∙◌, ◌⊎◌, Bool-cases, inl, inr, true, false, Option,
  none, some, List, [], ◌∷◌, arith, ltb, leb, ◌==◌, ==→eq, length, take, drop, length-drop,
  drop-drop, le→leb, leb→le,
}
use my_websocket_net.Prelude.Utf8.{is_utf8}
use my_websocket_net.Prelude.Result.{Result, ok, err}
use my_websocket_net.Socks.Wire.{
  SocksError, io, unsupported_atyp, malformed, v4, v6, SocksTarget, domain, ip, parse_target,
}
use my_websocket_net.Socks.Wire.Reading.{
  Read, ◌>>=◌, pure, >>=-ok, read_exact, read_domain, read_address, read_port, read_target_with,
  read_target,
}

abbrev pub succeeds : {A : Type 0} → Result A SocksError → Option A
succeeds (ok a) = some a
succeeds (err e) = none

-- Both read one target, and two bytes are left at least; or both fail.
abbrev pub Agree : ℕ → List ℕ → List ℕ → Type 0
Agree atyp buf rest =
    ((target : SocksTarget) × (offset : ℕ) × (left : List ℕ) × (parse_target atyp buf
        ≡ ok (target, offset))
      × (read_address atyp rest ≡ ok (target, left))
      × (drop offset buf ≡ left)
      × (2 ≤ length left)
      × (offset + length left ≡ length buf))
    ⊎ ((succeeds (parse_target atyp buf) ≡ none) × (succeeds (read_target atyp rest) ≡ none))

read_exact_short : (n : ℕ) (s : List ℕ) → length s < n → read_exact n s ≡ err io
unfolding read_exact
read_exact_short n s h = ground arith

pub read_exact_long : (n : ℕ) (s : List ℕ) → n ≤ length s → read_exact n s ≡ ok (take n s, drop n s)
unfolding read_exact
read_exact_long n s h = rw (le→leb n (length s) h) refl

pub >>=-err :
    {A B : Type 0} (m : Read A) (f : A → Read B) {s : List ℕ} {e : SocksError}
    → m s ≡ err e
    → (m >>= f) s ≡ err e
>>=-err {A} {B} m f h =
    ap {A = Result (A × List ℕ) SocksError} {B = Result (B × List ℕ) SocksError}
      (λ r. elim r [ err e ↦ err e | ok (x, t) ↦ f x t ]) h

-- A target that is read, without two bytes behind it.
no_port :
    (atyp : ℕ) (rest left : List ℕ) (target : SocksTarget)
    → read_address atyp rest ≡ ok (target, left)
    → length left < 2
    → read_target atyp rest ≡ err io
unfolding read_target read_target_with read_port
no_port atyp rest left target there short =
    >>=-ok (read_address atyp) _ there
    ∙ >>=-err (read_port false) _ (>>=-err (read_exact 2) _ (read_exact_short 2 left short))

no_target :
    (atyp : ℕ) (rest : List ℕ) (e : SocksError)
    → read_address atyp rest ≡ err e
    → read_target atyp rest ≡ err e
unfolding read_target read_target_with
no_target atyp rest e missing = >>=-err (read_address atyp) _ missing

-- A fixed number of octets.
octets_short :
    (atyp n : ℕ) (make : List ℕ → SocksTarget) (rest : List ℕ)
    → read_address atyp rest ≡ (read_exact n >>= λ octets. pure (make octets)) rest
    → length rest < n + 2
    → read_target atyp rest ≡ err io
octets_short atyp n make rest is short = elim (Bool-cases (leb n (length rest))) [
  | inl long ↦
      no_port atyp rest (drop n rest) (make (take n rest))
        (is ∙ >>=-ok (read_exact n) _ (read_exact_long n rest (leb→le n (length rest) long)))
        (omega (arith, length-drop n rest))
  | inr few ↦
      no_target atyp rest io
        (is ∙ >>=-err (read_exact n) _ (read_exact_short n rest (ground (arith, few))))
]

octets_long :
    (atyp n : ℕ) (make : List ℕ → SocksTarget) (rest : List ℕ)
    → read_address atyp rest ≡ (read_exact n >>= λ octets. pure (make octets)) rest
    → n ≤ length rest
    → read_address atyp rest ≡ ok (make (take n rest), drop n rest)
octets_long atyp n make rest is long = is ∙ >>=-ok (read_exact n) _ (read_exact_long n rest long)

v4-Agree : (x y frag : ℕ) (rest : List ℕ) → Agree 1 (x ∷ (y ∷ (frag ∷ (1 ∷ rest)))) rest
unfolding parse_target read_address
v4-Agree x y frag rest = elim (Bool-cases (ltb (4 + length rest) 10)) [
  | inl short ↦ inr (
    ground (arith, short),
    ap succeeds (octets_short 1 4 (λ octets. ip (v4 octets)) rest refl (ground (arith, short))),
  )
  | inr long ↦ inl (
    _,
    8,
    drop 4 rest,
    ground (arith, long),
    octets_long 1 4 (λ octets. ip (v4 octets)) rest refl (ground (arith, long)),
    refl,
    ground (arith, long, length-drop 4 rest),
    ground (arith, long, length-drop 4 rest),
  )
]

v6-Agree : (x y frag : ℕ) (rest : List ℕ) → Agree 4 (x ∷ (y ∷ (frag ∷ (4 ∷ rest)))) rest
unfolding parse_target read_address
v6-Agree x y frag rest = elim (Bool-cases (ltb (4 + length rest) 22)) [
  | inl short ↦ inr (
    ground (arith, short),
    ap succeeds (octets_short 4 16 (λ octets. ip (v6 octets)) rest refl (ground (arith, short))),
  )
  | inr long ↦ inl (
    _,
    20,
    drop 16 rest,
    ground (arith, long),
    octets_long 4 16 (λ octets. ip (v6 octets)) rest refl (ground (arith, long)),
    refl,
    ground (arith, long, length-drop 16 rest),
    ground (arith, long, length-drop 16 rest),
  )
]

-- A name behind its length.
read_name :
    (len : ℕ) (more : List ℕ)
    → (len == 0) ≡ false
    → len ≤ length more
    → is_utf8 (take len more) ≡ true
    → read_address 3 (len ∷ more) ≡ ok (domain (take len more), drop len more)
unfolding read_address read_domain
read_name len more some_name there utf8 =
    rw some_name (>>=-ok (read_exact len) _ (read_exact_long len more there) ∙ rw utf8 refl)

read_no_utf8 :
    (len : ℕ) (more : List ℕ)
    → (len == 0) ≡ false
    → len ≤ length more
    → is_utf8 (take len more) ≡ false
    → read_address 3 (len ∷ more) ≡ err (malformed "domain name is not valid UTF-8")
unfolding read_address read_domain
read_no_utf8 len more some_name there bad =
    rw some_name (>>=-ok (read_exact len) _ (read_exact_long len more there) ∙ rw bad refl)

read_short_name :
    (len : ℕ) (more : List ℕ)
    → (len == 0) ≡ false
    → length more < len
    → read_address 3 (len ∷ more) ≡ err io
unfolding read_address read_domain
read_short_name len more some_name short =
    rw some_name (>>=-err (read_exact len) _ (read_exact_short len more short))

read_no_name :
    (len : ℕ) (more : List ℕ)
    → (len == 0) ≡ true
    → read_address 3 (len ∷ more) ≡ err (malformed "domain name is empty")
unfolding read_address read_domain
read_no_name len more empty = rw empty refl

-- A name without two bytes behind it.
name_short :
    (len : ℕ) (more : List ℕ)
    → (len == 0) ≡ false
    → length more < len + 2
    → succeeds (read_target 3 (len ∷ more)) ≡ none
name_short len more some_name short = elim (Bool-cases (leb len (length more))) [
  | inr few ↦
      ap succeeds
        (no_target 3 (len ∷ more) io (read_short_name len more some_name (ground (arith, few))))
  | inl long ↦ elim (Bool-cases (is_utf8 (take len more))) [
    | inl utf8 ↦ ap succeeds (
        no_port 3 (len ∷ more) (drop len more) (domain (take len more))
          (read_name len more some_name (leb→le len (length more) long) utf8)
          (omega (arith, short, length-drop len more)))
    | inr bad ↦ ap succeeds (
        no_target 3 (len ∷ more) _
          (read_no_utf8 len more some_name (leb→le len (length more) long) bad))
  ]
]

domain-Agree : (x y frag : ℕ) (rest : List ℕ) → Agree 3 (x ∷ (y ∷ (frag ∷ (3 ∷ rest)))) rest
unfolding parse_target
domain-Agree x y frag [] =
    inr (ground arith, ap succeeds (no_target 3 [] io (unfold read_address read_domain in refl)))
domain-Agree x y frag (len ∷ more) = elim (Bool-cases (len == 0)) [
  | inl zero_len ↦ inr (
    ground (arith, zero_len),
    ap succeeds (no_target 3 (len ∷ more) _ (read_no_name len more zero_len)),
  )
  | inr some_name ↦ elim (Bool-cases (ltb (5 + length more) (5 + len + 2))) [
    | inl short ↦
        inr
          (ground (arith, some_name, short), name_short len more some_name (ground (arith, short)))
    | inr long ↦ elim (Bool-cases (is_utf8 (take len more))) [
      | inl utf8 ↦ inl (
        _,
        5 + len,
        drop len more,
        ground (arith, some_name, long, utf8),
        read_name len more some_name (ground (arith, long)) utf8,
        sym (drop-drop len 5 (x ∷ (y ∷ (frag ∷ (3 ∷ (len ∷ more)))))),
        ground (arith, long, length-drop len more),
        ground (arith, long, length-drop len more),
      )
      | inr bad ↦ inr (
        ground (arith, some_name, long, bad),
        ap succeeds (
            no_target 3 (len ∷ more) _
              (read_no_utf8 len more some_name (ground (arith, long)) bad)),
      )
    ]
  ]
]

other-Agree :
    (x y frag atyp : ℕ) (rest : List ℕ)
    → (atyp == 1) ≡ false
    → (atyp == 4) ≡ false
    → (atyp == 3) ≡ false
    → Agree atyp (x ∷ (y ∷ (frag ∷ (atyp ∷ rest)))) rest
unfolding parse_target
other-Agree x y frag atyp rest not1 not4 not3 = inr (
  ground (arith, not1, not4, not3),
  ap succeeds (
      no_target atyp rest (unsupported_atyp atyp)
        (unfold read_address in rw (not1, not4, not3) refl)),
)

pub agree : (x y frag atyp : ℕ) (rest : List ℕ) → Agree atyp (x ∷ (y ∷ (frag ∷ (atyp ∷ rest)))) rest
agree x y frag atyp rest = elim (Bool-cases (atyp == 1)) [
  | inl is ↦
      subst (λ a. Agree a (x ∷ (y ∷ (frag ∷ (a ∷ rest)))) rest) (sym (==→eq atyp 1 is))
        (v4-Agree x y frag rest)
  | inr not1 ↦ elim (Bool-cases (atyp == 4)) [
    | inl is ↦
        subst (λ a. Agree a (x ∷ (y ∷ (frag ∷ (a ∷ rest)))) rest) (sym (==→eq atyp 4 is))
          (v6-Agree x y frag rest)
    | inr not4 ↦ elim (Bool-cases (atyp == 3)) [
      | inl is ↦
          subst (λ a. Agree a (x ∷ (y ∷ (frag ∷ (a ∷ rest)))) rest) (sym (==→eq atyp 3 is))
            (domain-Agree x y frag rest)
      | inr not3 ↦ other-Agree x y frag atyp rest not1 not4 not3
    ]
  ]
]
