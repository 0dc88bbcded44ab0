-- ===== src/Transport/Post/Tests.antt =====
-- Runs of the POST codec, and its theorems at concrete inputs.
use my_websocket_net.Prelude.{ℕ, ◌≡◌, refl, arith, List, [], ◌∷◌}
use my_websocket_net.Prelude.Result.{ok, err}
use my_websocket_net.Bytes.{slice}
use my_websocket_net.Transport.Error.{truncated}
use my_websocket_net.Transport.Post.{encode, decode, decode_from, add_up, write_all}
use my_websocket_net.Transport.Post.Codec.{decode-encode}
use my_websocket_net.Transport.Post.Canonical.{encode-decode}

abbrev batch : List (List ℕ)
batch = (171 ∷ 1 ∷ []) ∷ [] ∷ (2 ∷ []) ∷ []

abbrev body : List ℕ
body = 0 ∷ 0 ∷ 0 ∷ 2 ∷ 171 ∷ 1 ∷ 0 ∷ 0 ∷ 0 ∷ 0 ∷ 0 ∷ 0 ∷ 0 ∷ 1 ∷ 2 ∷ []

encodes : encode batch ≡ ok body
unfolding encode add_up write_all
encodes = refl

decodes : decode body ≡ ok batch
unfolding decode decode_from slice
decodes = refl

refuses_a_cut_length : decode (0 ∷ 0 ∷ []) ≡ err (truncated "envelope_len")
unfolding decode decode_from slice
refuses_a_cut_length = refl

decode-encode_example : decode body ≡ ok batch
decode-encode_example = decode-encode batch body encodes

encode-decode_example : encode batch ≡ ok body
encode-decode_example = encode-decode batch body (omega arith) decodes
