-- ===== src/Transport/Sse.antt =====
-- crates/wsnet-transport/src/sse.rs: envelopes as server-sent events. The Base64 engine is a parameter.
pub mod Scanning
pub mod Chunks
mod Tests
use my_websocket_net.Prelude.{
  ℕ, ◌+◌, ◌≡◌, Bool, true, false, not, ◌&&◌, ◌||◌, Option, none, some, List, [], ◌∷◌, ◌++◌, ltb,
  ◌==◌, if◌then◌else◌, length,
}
use my_websocket_net.Prelude.Text.{Text, text, same_text}
use my_websocket_net.Prelude.Utf8.{is_utf8}
use my_websocket_net.Prelude.Result.{Result, ok, err, ◌>>=◌, ◌>>◌, refuse, ensure}
use my_websocket_net.Transport.Error.{
  CarrierError, envelope_too_large, sse_event_too_large, incomplete_event, invalid_utf8,
  invalid_base64,
}
use my_websocket_net.Limits.{max_carrier_record, max_sse_event}

-- `STANDARD.encode` and `STANDARD.decode`.
pub record Base64 : Type 0 where
  pub to_text : List ℕ → Text
  pub from_text : Text → Option (List ℕ)

pub record SseDecoder : Type 0 where
  pub pending : List ℕ
  pub data_text : Text
  pub has_data : Bool

abbrev pub new : SseDecoder
new = record { pending = []; data_text = []; has_data = false }

-- The name of a field, and the value behind the first colon, which may be missing.
unfoldable pub split_field : List ℕ → List ℕ × List ℕ
split_field [] = ([], [])
split_field (b ∷ line) =
    let (field, value) = split_field line in if b == b':' then ([], line) else (b ∷ field, value)

-- `value.strip_prefix(b" ").unwrap_or(value)`
abbrev pub strip_space : List ℕ → List ℕ
strip_space [] = []
strip_space (b ∷ value) = if b == b' ' then value else b ∷ value

abbrev pub joined : Bool → Text → Text → Text
joined true front value = front ++ 10 ∷ value
joined false front value = front ++ value

module _ (base64 : Base64) where
  unfoldable pub encode : List (List ℕ) → Result Text CarrierError
  encode [] = ok []
  encode (envelope ∷ envelopes) = do
    refuse (ltb max_carrier_record (length envelope))
        (envelope_too_large (length envelope) max_carrier_record)
    let encoded = base64.to_text envelope
    refuse (ltb max_sse_event (length encoded + 8))
        (sse_event_too_large (length encoded + 8) max_sse_event)
    rest ← encode envelopes
    ok (text "data: " ++ (encoded ++ (10 ∷ (10 ∷ rest))))

  -- The decoder behind a blank line, and the envelope of the event.
  unfoldable pub dispatch : SseDecoder → Result (SseDecoder × List (List ℕ)) CarrierError
  dispatch d =
      if d.has_data
      then elim (base64.from_text d.data_text) [
        | none ↦ err invalid_base64
        | some envelope ↦
            if ltb max_carrier_record (length envelope)
            then err (envelope_too_large (length envelope) max_carrier_record)
            else ok (record d { data_text = []; has_data = false }, envelope ∷ [])
      ]
      else ok (d, [])

  -- A `data` field.
  unfoldable pub add_data : SseDecoder → List ℕ → Result (SseDecoder × List (List ℕ)) CarrierError
  add_data d value =
      let data_text = joined d.has_data d.data_text value in
      if not (is_utf8 value)
      then err invalid_utf8
      else if ltb max_sse_event (length data_text)
      then err (sse_event_too_large (length data_text) max_sse_event)
      else ok (record d { data_text = data_text; has_data = true }, [])

  unfoldable pub handle_line :
      SseDecoder → List ℕ → Result (SseDecoder × List (List ℕ)) CarrierError
  handle_line d [] = dispatch d
  handle_line d (b ∷ line) =
      let (field, value) = split_field (b ∷ line) in
      if b == b':'
      then ok (d, [])
      else if same_text field (text "data")
      then add_data d (strip_space value)
      else ok (d, [])

  -- The loop of `feed`: whether the byte in front ended a line as `\r`, and the decoder, whose
  -- `pending` is what has been read of the line that is not ended yet.
  abbrev pub State : Type 0
  State = Bool × SseDecoder

  -- The line that is pending, ended by the byte `b`.
  unfoldable pub end_line : SseDecoder → ℕ → Result (State × List (List ℕ)) CarrierError
  end_line d b = elim (handle_line d d.pending) [
    | err e ↦ err e
    | ok (d', out) ↦ ok ((b == 13, record d' { pending = [] }), out)
  ]

  unfoldable pub step : State → ℕ → Result (State × List (List ℕ)) CarrierError
  step (cr, d) b =
      if b == 10 && cr
      then ok ((false, d), [])
      else if b == 10 || b == 13
      then end_line d b
      else ok ((false, record d { pending = d.pending ++ b ∷ [] }), [])

  unfoldable pub scan : State → List ℕ → Result (State × List (List ℕ)) CarrierError
  scan s [] = ok (s, [])
  scan s (b ∷ bytes) = elim (step s b) [
    | err e ↦ err e
    | ok (s', out) ↦ elim (scan s' bytes) [ err e ↦ err e | ok (s'', out') ↦ ok (s'', out ++ out') ]
  ]

  abbrev pub checked :
      Result (State × List (List ℕ)) CarrierError → Result (SseDecoder × List (List ℕ)) CarrierError
  checked (err e) = err e
  checked (ok ((cr, d), out)) =
      if ltb max_sse_event (length d.pending)
      then err (sse_event_too_large (length d.pending) max_sse_event)
      else ok (d, out)

  unfoldable pub feed : SseDecoder → List ℕ → Result (SseDecoder × List (List ℕ)) CarrierError
  feed d chunk = checked (scan (false, record d { pending = [] }) (d.pending ++ chunk))

  unfoldable pub finish : SseDecoder → Result (Unit {0}) CarrierError
  finish d = if not (length d.pending == 0) || d.has_data then err incomplete_event else ok tt

  unfoldable pub decode : List ℕ → Result (List (List ℕ)) CarrierError
  decode body = do (d, envelopes) ← feed new body; finish d; ok envelopes
