-- ===== src/Protocol/Canon/Entries.antt =====
-- Entries put into an ordered map one after the other.
use my_websocket_net.Prelude.{◌≡◌, refl, ap, true, false, arith, Bool-cases, inl, inr}
use my_websocket_net.Prelude.Text.{
  Text, same_text, text_ltb, text_ltb_irrefl, text_ltb_trans, same_text_sound,
}
use my_websocket_net.Protocol.Canon.{Canonical, Fields, end, field, put, holds_key}

unfoldable pub join : Fields → Fields → Fields
join end gs = gs
join (field k v fs) gs = field k v (join fs gs)

-- Every key comes before `key`.
abbrev pub Before : Text → Fields → Type 0
Before key end = Unit {0}
Before key (field k v fs) = (text_ltb k key ≡ true) × Before key fs

less_not_same : (s t : Text) → text_ltb s t ≡ true → same_text s t ≡ false
less_not_same s t h = elim (Bool-cases (same_text s t)) [
  | inr e ↦ e
  | inl e ↦
      let eq = same_text_sound s t e in
      absurd (ground (arith, text_ltb_irrefl t, ap (λ x. text_ltb x t) eq))
]

less_not_more : (s t : Text) → text_ltb s t ≡ true → text_ltb t s ≡ false
less_not_more s t h = elim (Bool-cases (text_ltb t s)) [
  | inr e ↦ e
  | inl e ↦ absurd (ground (arith, text_ltb_trans s t s h e, text_ltb_irrefl s))
]

pub put-last :
    (key : Text) (v : Canonical) (fs : Fields)
    → Before key fs
    → put key v fs ≡ join fs (field key v end)
unfolding put join
put-last key v end before = refl
put-last key v (field k w fs) before =
    rw (less_not_more k key before.0, less_not_same k key before.0)
      (ap (field k w) (put-last key v fs before.1))

pub holds_key-last : (key : Text) (fs : Fields) → Before key fs → holds_key key fs ≡ false
unfolding holds_key
holds_key-last key end before = refl
holds_key-last key (field k w fs) before =
    rw (less_not_same k key before.0) (holds_key-last key fs before.1)

Before-later :
    (key key' : Text) (fs : Fields) → text_ltb key key' ≡ true → Before key fs → Before key' fs
Before-later key key' end less before = tt
Before-later key key' (field k w fs) less before =
    (text_ltb_trans k key key' before.0 less, Before-later key key' fs less before.1)

pub Before-join :
    (key key' : Text) (v : Canonical) (fs : Fields)
    → text_ltb key key' ≡ true
    → Before key fs
    → Before key' (join fs (field key v end))
unfolding join
Before-join key key' v end less before = (less, tt)
Before-join key key' v (field k w fs) less before =
    (text_ltb_trans k key key' before.0 less, Before-join key key' v fs less before.1)

pub join_assoc : (fs gs hs : Fields) → join (join fs gs) hs ≡ join fs (join gs hs)
unfolding join
join_assoc end gs hs = refl
join_assoc (field k v fs) gs hs = ap (field k v) (join_assoc fs gs hs)
