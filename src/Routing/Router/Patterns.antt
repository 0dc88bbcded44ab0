-- ===== src/Routing/Router/Patterns.antt =====
-- Which hosts a domain pattern matches.
use my_websocket_net.Prelude.{
  ◌-◌, ◌≡◌, ◌↔◌, ◌⊎◌, refl, sym, ap, ◌∙◌, true, false, ◌∷◌, ◌++◌, arith, leb, le→leb, length, take,
  drop, length-append, drop-append_exact, take-append-drop, Bool-cases, inl, inr,
}
use my_websocket_net.Prelude.Text.{Text, same_text, same_text_iff, same_text_refl}
use my_websocket_net.Routing.Router.{in_suffix, ends_with, to_ascii_lowercase}

ends_with-split :
    (bytes suffix : Text)
    → ends_with bytes suffix ≡ true
    → (front : Text) × (bytes ≡ front ++ suffix)
unfolding ends_with
ends_with-split bytes suffix h =
    let n = length bytes - length suffix in
    let same : same_text (drop n bytes) suffix ≡ true = ground (arith, h) in
    (
      take n bytes,
      sym (take-append-drop n bytes)
          ∙ ap (λ t. take n bytes ++ t) ((same_text_iff (drop n bytes) suffix).0 same),
    )

append-ends_with : (front suffix : Text) → ends_with (front ++ suffix) suffix ≡ true
unfolding ends_with
append-ends_with front suffix =
    let len = length-append front suffix in
    let fits : leb (length suffix) (length (front ++ suffix)) ≡ true =
      le→leb (length suffix) (length (front ++ suffix)) (omega (arith, len)) in
    let n : length (front ++ suffix) - length suffix ≡ length front = omega (arith, len) in
    let cut : drop (length (front ++ suffix) - length suffix) (front ++ suffix) ≡ suffix =
      ap (λ k. drop k (front ++ suffix)) n ∙ drop-append_exact front suffix in
    rw (fits, cut) (same_text_refl suffix)

-- The suffix sits on a label boundary: a host matches exactly if its lower-case form is the suffix, or
-- ends with a dot and the suffix.
pub in_suffix_iff :
    (suffix host : Text)
    → (in_suffix suffix host ≡ true) ↔ (
        (to_ascii_lowercase host ≡ suffix)
        ⊎ ((front : Text) × (to_ascii_lowercase host ≡ front ++ b'.' ∷ suffix)))
unfolding in_suffix
in_suffix_iff suffix host = elim (Bool-cases (same_text (to_ascii_lowercase host) suffix)) [
  | inl same ↦
      (λ _. inl ((same_text_iff (to_ascii_lowercase host) suffix).0 same), λ _. rw same refl)
  | inr other ↦ (
    λ h. inr (ends_with-split (to_ascii_lowercase host) (b'.' ∷ suffix) (rw other at h)),
    λ h. rw other (either suffix host other h),
  )
]
  where
    either :
        (suffix host : Text)
        → same_text (to_ascii_lowercase host) suffix ≡ false
        → (to_ascii_lowercase host ≡ suffix)
          ⊎ ((front : Text) × (to_ascii_lowercase host ≡ front ++ b'.' ∷ suffix))
        → ends_with (to_ascii_lowercase host) (b'.' ∷ suffix) ≡ true
    either suffix host other (inl e) =
        absurd (cc ((same_text_iff (to_ascii_lowercase host) suffix).1 e, other))
    either suffix host other (inr (front, e)) = rw e (append-ends_with front (b'.' ∷ suffix))
