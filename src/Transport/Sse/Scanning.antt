-- ===== src/Transport/Sse/Scanning.antt =====
-- The bytes of a stream, in two parts and up to the end of a line.
use my_websocket_net.Prelude.{
  ℕ, ◌≡◌, refl, sym, ap, subst, ◌∙◌, Bool-cases, inl, inr, false, List, [], ◌∷◌, ◌++◌, ◌==◌, All,
  All-append,
}
use my_websocket_net.Prelude.Result.{Result, ok, err, Result-cases}
use my_websocket_net.Transport.Error.{CarrierError}
use my_websocket_net.Transport.Sse.{Base64, SseDecoder, State, end_line, step, scan, handle_line}

-- A byte that ends no line.
abbrev pub Plain : ℕ → Type 0
Plain b = ((b == 10) ≡ false) × ((b == 13) ≡ false)

pub append_assoc : {A : Type 0} (xs ys zs : List A) → (xs ++ ys) ++ zs ≡ xs ++ (ys ++ zs)
append_assoc [] ys zs = refl
append_assoc (x ∷ xs) ys zs = ap (◌∷◌ x) (append_assoc xs ys zs)

pub append_nil : {A : Type 0} (xs : List A) → xs ++ [] ≡ xs
append_nil [] = refl
append_nil (x ∷ xs) = ap (◌∷◌ x) (append_nil xs)

module _ (base64 : Base64) where
  abbrev pub Answer : Type 0
  Answer = Result (State base64 × List (List ℕ)) CarrierError

  -- What a successful answer holds.
  ok_parts :
      {s s' : State base64} {out out' : List (List ℕ)}
      → ◌≡◌ {A = Answer} (ok (s, out)) (ok (s', out'))
      → (s ≡ s') × (out ≡ out')
  ok_parts {s} {s'} {out} {out'} h =
      let both : ◌≡◌ {A = State base64 × List (List ℕ)} (s, out) (s', out') =
        ap {A = Answer} {B = State base64 × List (List ℕ)}
          (λ r. elim r [ ok p ↦ p | err e ↦ (s, out) ]) h in
      (ap (λ p. p.0) both, ap (λ p. p.1) both)

  scan_more :
      (s s' s'' : State base64) (b : ℕ) (bytes : List ℕ) (out out' : List (List ℕ))
      → step base64 s b ≡ ok (s', out)
      → scan base64 s' bytes ≡ ok (s'', out')
      → scan base64 s (b ∷ bytes) ≡ ok (s'', out ++ out')
  unfolding scan
  scan_more s s' s'' b bytes out out' h k = rw (h, scan, k) refl

  scan_first :
      (s s'' : State base64) (b : ℕ) (bytes : List ℕ) (all : List (List ℕ))
      → scan base64 s (b ∷ bytes) ≡ ok (s'', all)
      → (s' : State base64) × (out : List (List ℕ)) × (out' : List (List ℕ)) × (step base64 s b
          ≡ ok (s', out))
        × (scan base64 s' bytes ≡ ok (s'', out'))
        × (out ++ out' ≡ all)
  scan_first s s'' b bytes all h = elim (Result-cases (step base64 s b)) [
    | inr (e, is) ↦ absurd (unfold scan in cc (is, h))
    | inl ((s', out), is) ↦ elim (Result-cases (scan base64 s' bytes)) [
      | inr (e, ends) ↦ absurd (unfold scan in cc (is, ends, h))
      | inl ((t, out'), ends) ↦
          let (same, outs) = ok_parts (sym (scan_more s s' t b bytes out out' is ends) ∙ h) in
          (s', out, out', is, ends ∙ ap (λ u. ok (u, out')) same, outs)
    ]
  ]

  -- Scanning in two parts.
  pub scan-append :
      (s s' s'' : State base64) (xs ys : List ℕ) (out out' : List (List ℕ))
      → scan base64 s xs ≡ ok (s', out)
      → scan base64 s' ys ≡ ok (s'', out')
      → scan base64 s (xs ++ ys) ≡ ok (s'', out ++ out')
  scan-append s s' s'' [] ys out out' h k =
      let (same, outs) = ok_parts {s = s} {s' = s'} {out = []} {out' = out} (unfold scan in h) in
      ap (λ t. scan base64 t ys) same ∙ k ∙ ap (λ o. ok (s'', o ++ out')) outs
  scan-append s s' s'' (x ∷ xs) ys out out' h k =
      let (t, first, rest, is, ends, outs) = scan_first s s' x xs out h in
      scan_more s t s'' x (xs ++ ys) first (rest ++ out') is
        (scan-append t s' s'' xs ys rest out' ends k)
      ∙ ap (λ o. ok (s'', o)) (sym (append_assoc first rest out') ∙ ap (λ o. o ++ out') outs)

  scan_skip :
      (s s' : State base64) (b : ℕ) (bytes : List ℕ)
      → step base64 s b ≡ ok (s', [])
      → scan base64 s (b ∷ bytes) ≡ scan base64 s' bytes
  scan_skip s s' b bytes h = elim (Result-cases (scan base64 s' bytes)) [
    | inl ((t, out), is) ↦ scan_more s s' t b bytes [] out h is ∙ sym is
    | inr (e, is) ↦ unfold scan in rw (h, scan, is) refl
  ]

  -- Bytes that end no line are kept.
  pub scan-Plain :
      (d : SseDecoder) (line bytes : List ℕ)
      → All Plain line
      → scan base64 (false, d) (line ++ bytes)
        ≡ scan base64 (false, record d { pending = d.pending ++ line }) bytes
  scan-Plain d [] bytes plain =
      ap (λ p. scan base64 (false, record d { pending = p }) bytes) (sym (append_nil d.pending))
  scan-Plain d (b ∷ line) bytes ((lf, cr), plain) =
      scan_skip (false, d) (false, record d { pending = d.pending ++ b ∷ [] }) b (line ++ bytes)
        (unfold step in rw (lf, cr) refl)
      ∙ scan-Plain (record d { pending = d.pending ++ b ∷ [] }) line bytes plain
      ∙ ap (λ p. scan base64 (false, record d { pending = p }) bytes)
          (append_assoc d.pending (b ∷ []) line)

  -- No `\r` is the last byte, and no line is ended in what is pending.
  abbrev pub Open : State base64 → Type 0
  Open s = (s.0 ≡ false) × All Plain s.1.pending

  end_line-Open :
      (d : SseDecoder) (b : ℕ) (s' : State base64) (out : List (List ℕ))
      → (b == 13) ≡ false
      → end_line base64 d b ≡ ok (s', out)
      → Open s'
  end_line-Open d b s' out cr h = elim (Result-cases (handle_line base64 d d.pending)) [
    | inr (e, is) ↦ absurd (unfold end_line in cc (is, h))
    | inl ((d', o), is) ↦
        let there : end_line base64 d b ≡ ok ((b == 13, record d' { pending = [] }), o) =
          unfold end_line in rw (end_line, is) refl in
        let (same, _) = ok_parts (sym there ∙ h) in subst Open same (cr, tt)
  ]

  step-Open :
      (s s' : State base64) (b : ℕ) (out : List (List ℕ))
      → Open s
      → (b == 13) ≡ false
      → step base64 s b ≡ ok (s', out)
      → Open s'
  step-Open (c, d) s' b out (still, plain) cr h = elim (Bool-cases (b == 10)) [
    | inl lf ↦ end_line-Open d b s' out cr (unfold step in cc (lf, still, h))
    | inr lf ↦
        let there : step base64 (c, d) b
            ≡ ok ((false, record d { pending = d.pending ++ b ∷ [] }), []) =
          unfold step in rw (lf, cr) refl in
        let (same, _) = ok_parts (sym there ∙ h) in
        subst Open same (refl, All-append Plain d.pending (b ∷ []) plain ((lf, cr), tt))
  ]

  pub scan-Open :
      (s s' : State base64) (bytes : List ℕ) (out : List (List ℕ))
      → Open s
      → All (λ b. (b == 13) ≡ false) bytes
      → scan base64 s bytes ≡ ok (s', out)
      → Open s'
  scan-Open s s' [] out is no_return h =
      subst Open (ok_parts {s = s} {s' = s'} {out = []} {out' = out} (unfold scan in h)).0 is
  scan-Open s s' (b ∷ bytes) out is (cr, no_return) h =
      let (t, first, rest, one, more, _) = scan_first s s' b bytes out h in
      scan-Open t s' bytes rest (step-Open s t b first is cr one) no_return more
