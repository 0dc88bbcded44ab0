-- ===== src/Socks/Wire/Tests.antt =====
-- Runs of the wire messages, and the theorems on datagrams at concrete inputs.
use my_websocket_net.Prelude.{ℕ, ◌≡◌, refl, true, none, List, [], ◌∷◌, drop, arith}
use my_websocket_net.Prelude.Text.{text}
use my_websocket_net.Prelude.Utf8.{is_utf8}
use my_websocket_net.Prelude.Result.{ok, err}
use my_websocket_net.Socks.Wire.{
  port_zero, connect, udp_associate, v4, domain, ip, command_from_u8, method_from_u8, no_auth,
  user_pass, parse, encode_udp_datagram,
}
use my_websocket_net.Socks.Wire.Reading.{
  read_exact, read_domain, read_address, read_port, read_target_with, read_target, read_request,
  read_greeting, read_credentials, read_length_prefixed, offers, choose,
}
use my_websocket_net.Socks.Wire.Agreement.{header_of, parse-read_target}
use my_websocket_net.Socks.Wire.Agreement.Targets.{succeeds}
use my_websocket_net.Socks.Wire.Datagram.{parse-encode_udp_datagram}

-- CONNECT to the name h, port 443, with a byte of the stream behind it.
connects :
    read_request (5 ∷ (1 ∷ (0 ∷ (3 ∷ (1 ∷ (b'h' ∷ (1 ∷ (187 ∷ (9 ∷ [])))))))))
    ≡ ok (record { command = connect; target = domain (text "h"); port = 443 }, 9 ∷ [])
unfolding read_request command_from_u8 read_target_with read_address read_domain read_exact
    read_port is_utf8
connects = refl

-- Only UDP ASSOCIATE may leave the port open.
zero_port :
    read_request (5 ∷ (1 ∷ (0 ∷ (1 ∷ (0 ∷ (0 ∷ (0 ∷ (0 ∷ (0 ∷ (0 ∷ [])))))))))) ≡ err port_zero
unfolding read_request command_from_u8 read_target_with read_address read_exact read_port
zero_port = refl

associates :
    read_request (5 ∷ (3 ∷ (0 ∷ (1 ∷ (0 ∷ (0 ∷ (0 ∷ (0 ∷ (0 ∷ (0 ∷ []))))))))))
    ≡ ok (
      record { command = udp_associate; target = ip (v4 (0 ∷ (0 ∷ (0 ∷ (0 ∷ []))))); port = 0 },
      [],
    )
unfolding read_request command_from_u8 read_target_with read_address read_exact read_port
associates = refl

greets : read_greeting (5 ∷ (2 ∷ (0 ∷ (2 ∷ [])))) ≡ ok (no_auth ∷ (user_pass ∷ []), [])
unfolding read_greeting read_exact method_from_u8
greets = refl

no_way_around_the_password : choose (no_auth ∷ []) true ≡ none
unfolding choose offers
no_way_around_the_password = refl

signs_in : read_credentials (1 ∷ (1 ∷ (b'u' ∷ (1 ∷ (b'p' ∷ []))))) ≡ ok ((text "u", text "p"), [])
unfolding read_credentials read_length_prefixed read_exact is_utf8
signs_in = refl

parse-read_target_example :
    succeeds (parse (0 ∷ (0 ∷ (0 ∷ (3 ∷ (1 ∷ (b'h' ∷ (1 ∷ (187 ∷ [])))))))))
    ≡ header_of 0 8 (read_target 3 (1 ∷ (b'h' ∷ (1 ∷ (187 ∷ [])))))
parse-read_target_example = parse-read_target 0 3 (1 ∷ (b'h' ∷ (1 ∷ (187 ∷ []))))

parse-encode_udp_datagram_example :
    (bytes : List ℕ) × (offset : ℕ) × (encode_udp_datagram (domain (text "h")) 443 (7 ∷ [])
      ≡ ok bytes)
    × (parse bytes ≡ ok (record { frag = 0; target = domain (text "h"); port = 443 }, offset))
    × (drop offset bytes ≡ 7 ∷ [])
parse-encode_udp_datagram_example =
    parse-encode_udp_datagram (domain (text "h")) 443 (7 ∷ [])
      (omega arith, omega arith, unfold is_utf8 in refl) (omega arith) (omega arith)
