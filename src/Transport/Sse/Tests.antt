-- ===== src/Transport/Sse/Tests.antt =====
-- Runs of the event decoder, and its theorem at a concrete input. A text stands for its own bytes in
-- place of Base64, in which `x` may not stand.
use my_websocket_net.Prelude.{
  ℕ, ◌≡◌, refl, Bool, false, ◌||◌, none, some, List, [], ◌∷◌, ◌==◌, if◌then◌else◌,
}
use my_websocket_net.Prelude.Text.{Text, text, same_text}
use my_websocket_net.Prelude.Utf8.{is_utf8}
use my_websocket_net.Prelude.Result.{ok, err}
use my_websocket_net.Transport.Error.{invalid_base64, incomplete_event}
use my_websocket_net.Transport.Sse.{
  Base64, new, encode, decode, feed, finish, scan, step, end_line, handle_line, add_data, dispatch,
  split_field,
}
use my_websocket_net.Transport.Sse.Chunks.{feed_all, feed_all_joined}

abbrev has_newline : List ℕ → Bool
has_newline [] = false
has_newline (b ∷ bytes) = b == 10 || has_newline bytes

abbrev plain : Base64
plain = record { to_text = λ bytes. bytes; from_text = λ t. if has_newline t then none else some t }

abbrev stream : Text
stream = text "event: m\ndata: ab\n\n:c\ndata:cd\n\n"

encodes : encode plain (text "ab" ∷ (text "cd" ∷ [])) ≡ ok (text "data: ab\n\ndata: cd\n\n")
unfolding encode
encodes = refl

decodes : decode plain stream ≡ ok (text "ab" ∷ (text "cd" ∷ []))
unfolding decode feed finish scan step end_line handle_line add_data dispatch split_field same_text
    is_utf8
decodes = refl

unfinished : decode plain (text "data: ab\n") ≡ err incomplete_event
unfolding decode feed finish scan step end_line handle_line add_data dispatch split_field same_text
    is_utf8
unfinished = refl

-- Two lines of one event, each ended by CR LF, are refused in one piece; if a chunk ends between CR and
-- LF, the LF is taken for a blank line, and the first line becomes an event.
splits_between_cr_and_lf :
    (feed plain new (text "data: ab\r\ndata: cd\r\n\r\n") ≡ err invalid_base64)
    × (feed_all plain new (text "data: ab\r" ∷ (text "\ndata: cd\r\n\r\n" ∷ []))
        ≡ ok (new, text "ab" ∷ (text "cd" ∷ [])))
unfolding feed feed_all scan step end_line handle_line add_data dispatch split_field same_text
    is_utf8
splits_between_cr_and_lf = (refl, refl)

in_chunks :
    feed_all plain new (text "da" ∷ (text "ta: ab\n" ∷ (text "\n" ∷ []))) ≡ ok (new, text "ab" ∷ [])
unfolding feed feed_all scan step end_line handle_line add_data dispatch split_field same_text
    is_utf8
in_chunks = refl

feed_all_joined_example : feed plain new (text "data: ab\n\n") ≡ ok (new, text "ab" ∷ [])
feed_all_joined_example =
    feed_all_joined plain new (text "da") (text "ta: ab\n" ∷ (text "\n" ∷ [])) (text "ab" ∷ [])
      (refl, (refl, tt))
      ((refl, (refl, (refl, (refl, (refl, (refl, (refl, tt))))))), ((refl, tt), tt)) in_chunks
