-- ===== src/Transport/Sse/Chunks.antt =====
-- The chunks in which a stream arrives.
use my_websocket_net.Prelude.{
  ℕ, ◌≡◌, refl, sym, ap, subst, ◌∙◌, Bool, Bool-cases, inl, inr, false, List, [], ◌∷◌, ◌++◌, arith,
  ltb, ◌==◌, length, All,
}
use my_websocket_net.Limits.{max_sse_event}
use my_websocket_net.Prelude.Result.{Result, ok, err, Result-cases}
use my_websocket_net.Transport.Error.{CarrierError}
use my_websocket_net.Transport.Sse.{Base64, SseDecoder, new, State, scan, checked, feed}
use my_websocket_net.Transport.Sse.Scanning.{
  Plain, append_nil, Answer, scan-Plain, scan-append, scan-Open,
}

module _ (base64 : Base64) where
  abbrev Fits : SseDecoder → Type 0
  Fits d = ltb max_sse_event (length d.pending) ≡ false

  checked-ok :
      (r : Answer base64) (d : SseDecoder) (out : List (List ℕ))
      → checked base64 r ≡ ok (d, out)
      → (cr : Bool) × (r ≡ ok ((cr, d), out)) × Fits d
  checked-ok (err e) d out h = absurd (cc h)
  checked-ok (ok ((cr, d'), o)) d out h =
      elim (Bool-cases (ltb max_sse_event (length d'.pending))) [
        | inl long ↦ absurd (ground (arith, long, h))
        | inr fits ↦
            let there : checked base64 (ok ((cr, d'), o)) ≡ ok (d', o) = rw fits refl in
            let both = sym there ∙ h in
            let parts : ◌≡◌ {A = SseDecoder × List (List ℕ)} (d', o) (d, out) =
              ap {A = Result (SseDecoder × List (List ℕ)) CarrierError}
                (λ r. elim r [ ok p ↦ p | err e ↦ (d', o) ]) both in
            (cr, ap (λ p. ok ((cr, p.0), p.1)) parts, subst Fits (ap (λ p. p.0) parts) fits)
      ]

  -- Two chunks, of which the first has no `\r`, and both at once.
  feed-append :
      (d d1 d2 : SseDecoder) (a b : List ℕ) (o1 o2 : List (List ℕ))
      → All Plain d.pending
      → All (λ x. (x == 13) ≡ false) a
      → feed base64 d a ≡ ok (d1, o1)
      → feed base64 d1 b ≡ ok (d2, o2)
      → (feed base64 d (a ++ b) ≡ ok (d2, o1 ++ o2)) × All Plain d1.pending
  feed-append d d1 d2 a b o1 o2 plain no_return one two =
      let start : State base64 = (false, record d { pending = [] }) in
      let (cr1, first, _) =
        checked-ok (scan base64 start (d.pending ++ a)) d1 o1 (unfold feed in one) in
      let (cr2, second, fits) =
        checked-ok (scan base64 (false, record d1 { pending = [] }) (d1.pending ++ b)) d2 o2
          (unfold feed in two) in
      let first' : scan base64 (false, d) a ≡ ok ((cr1, d1), o1) =
        sym (scan-Plain base64 (record d { pending = [] }) d.pending a plain) ∙ first in
      let (still, open_line) =
        scan-Open base64 (false, d) (cr1, d1) a o1 (refl, plain) no_return first' in
      let second' : scan base64 (cr1, d1) b ≡ ok ((cr2, d2), o2) =
        ap (λ c. scan base64 (c, d1) b) still
        ∙ sym (scan-Plain base64 (record d1 { pending = [] }) d1.pending b open_line)
        ∙ second in
      (
        unfold feed in
            (ap (checked base64) (
                scan-Plain base64 (record d { pending = [] }) d.pending (a ++ b) plain
                ∙ scan-append base64 (false, d) (cr1, d1) (cr2, d2) a b o1 o2 first' second')
              ∙ rw fits refl),
        open_line,
      )

  feed-Plain :
      (d d1 : SseDecoder) (a : List ℕ) (o1 : List (List ℕ))
      → All Plain d.pending
      → All (λ x. (x == 13) ≡ false) a
      → feed base64 d a ≡ ok (d1, o1)
      → All Plain d1.pending
  feed-Plain d d1 a o1 plain no_return one =
      let start : State base64 = (false, record d { pending = [] }) in
      let (cr1, first, _) =
        checked-ok (scan base64 start (d.pending ++ a)) d1 o1 (unfold feed in one) in
      (scan-Open base64 (false, d) (cr1, d1) a o1 (refl, plain) no_return
        (sym (scan-Plain base64 (record d { pending = [] }) d.pending a plain) ∙ first)).1

  abbrev pub Fed : Type 0
  Fed = Result (SseDecoder × List (List ℕ)) CarrierError

  -- The decoder is fed the chunks one after another.
  unfoldable pub feed_all : SseDecoder → List (List ℕ) → Fed
  feed_all d [] = ok (d, [])
  feed_all d (c ∷ cs) = elim (feed base64 d c) [
    | err e ↦ err e
    | ok (d', out) ↦ elim (feed_all d' cs) [
      | err e ↦ err e
      | ok (d'', out') ↦ ok (d'', out ++ out')
    ]
  ]

  abbrev pub joined_up : List (List ℕ) → List ℕ
  joined_up [] = []
  joined_up (c ∷ cs) = c ++ joined_up cs

  feed_first :
      (d last : SseDecoder) (c : List ℕ) (cs all : List (List ℕ))
      → feed_all d (c ∷ cs) ≡ ok (last, all)
      → (d' : SseDecoder) × (out : List (List ℕ)) × (out' : List (List ℕ)) × (feed base64 d c
          ≡ ok (d', out))
        × (feed_all d' cs ≡ ok (last, out'))
        × (out ++ out' ≡ all)
  feed_first d last c cs all h = elim (Result-cases (feed base64 d c)) [
    | inr (e, is) ↦ absurd (unfold feed_all in cc (is, h))
    | inl ((d', out), is) ↦ elim (Result-cases (feed_all d' cs)) [
      | inr (e, ends) ↦ absurd (unfold feed_all in cc (is, ends, h))
      | inl ((t, out'), ends) ↦
          let there : feed_all d (c ∷ cs) ≡ ok (t, out ++ out') =
            unfold feed_all in rw (is, feed_all, ends) refl in
          let both : ◌≡◌ {A = Fed} (ok (t, out ++ out')) (ok (last, all)) = sym there ∙ h in
          let parts : ◌≡◌ {A = SseDecoder × List (List ℕ)} (t, out ++ out') (last, all) =
            ap {A = Fed} (λ r. elim r [ ok p ↦ p | err e ↦ (t, out ++ out') ]) both in
          (d', out, out', is, ends ∙ ap (λ p. ok (p.0, out')) parts, ap (λ p. p.1) parts)
    ]
  ]

  join_from :
      (d last : SseDecoder) (c : List ℕ) (cs all : List (List ℕ))
      → All Plain d.pending
      → All (λ x. (x == 13) ≡ false) c
      → All (All (λ x. (x == 13) ≡ false)) cs
      → feed_all d (c ∷ cs) ≡ ok (last, all)
      → feed base64 d (c ++ joined_up cs) ≡ ok (last, all)
  join_from d last c [] all plain here no_return h =
      let (d', out, out', is, ends, outs) = feed_first d last c [] all h in
      let done : ◌≡◌ {A = Fed} (ok (d', [])) (ok (last, out')) = unfold feed_all in ends in
      let both : ◌≡◌ {A = SseDecoder × List (List ℕ)} (d', []) (last, out') =
        ap {A = Fed} (λ r. elim r [ ok p ↦ p | err e ↦ (d', []) ]) done in
      ap (feed base64 d) (append_nil c)
      ∙ is
      ∙ ap {B = Fed} (λ o. ok (d', o)) (sym (append_nil out))
      ∙ ap {B = Fed} (λ p. ok (p.0, out ++ p.1)) both
      ∙ ap (λ o. ok (last, o)) outs
  join_from d last c (c' ∷ cs) all plain here (next, no_return) h =
      let (d', out, out', is, ends, outs) = feed_first d last c (c' ∷ cs) all h in
      let plain' = feed-Plain d d' c out plain here is in
      let rest = join_from d' last c' cs out' plain' next no_return ends in
      (feed-append d d' last c (c' ++ joined_up cs) out out' plain here is rest).0
      ∙ ap (λ o. ok (last, o)) outs

  -- A stream without `\r` that is decoded chunk by chunk is decoded to the same envelopes, and leaves the
  -- decoder the same, as when it arrives in one piece.
  pub feed_all_joined :
      (last : SseDecoder) (c : List ℕ) (cs all : List (List ℕ))
      → All (λ x. (x == 13) ≡ false) c
      → All (All (λ x. (x == 13) ≡ false)) cs
      → feed_all new (c ∷ cs) ≡ ok (last, all)
      → feed base64 new (c ++ joined_up cs) ≡ ok (last, all)
  feed_all_joined last c cs all here no_return h = join_from new last c cs all tt here no_return h
