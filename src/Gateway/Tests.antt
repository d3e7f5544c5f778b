-- ===== src/Gateway/Tests.antt =====
-- Frames for gateway/youyeetoo_eth_gateway.c.
use youyeetoo_rk3588_toolkit.Prelude.{
  ◌≡◌, refl, Bool, true, false, [], ◌∷◌, ◌++◌, Option, none, some, arith, replicate,
}
use youyeetoo_rk3588_toolkit.Prelude.Text.{Text, codes}
use youyeetoo_rk3588_toolkit.Gateway.{
  default_options, parse_options, readable, incoming, outgoing, timed_out,
}
use youyeetoo_rk3588_toolkit.Gateway.Monitor.{monitor}
use youyeetoo_rk3588_toolkit.Gateway.Packets.{
  decode_protocol, decoded, whole, protocol_checksum, Protocol,
}
use youyeetoo_rk3588_toolkit.Gateway.Checksum.{set_byte}
use youyeetoo_rk3588_toolkit.Gateway.Damage.{verdict, decode_protocol-set_byte}
use youyeetoo_rk3588_toolkit.Gateway.Bounds.{IsRead, monitor-IsRead}

-- A packet of two bytes 01 02 with the marker 1ACF.
abbrev packet : Text
packet = 26 ∷ 207 ∷ 24 ∷ 1 ∷ 192 ∷ 5 ∷ 0 ∷ 1 ∷ 1 ∷ 2 ∷ 255 ∷ 29 ∷ []

packet_checksum : protocol_checksum packet 0 2 ≡ some 65309
unfolding protocol_checksum
packet_checksum = refl

is_ok : Option Protocol → Bool
is_ok (some (decoded h (whole ok received calculated payload _))) = ok
is_ok _ = false

packet_ok : is_ok (decode_protocol packet 0 12) ≡ true
unfolding is_ok decode_protocol
packet_ok = refl

-- A frame that claims more IP than it has.
abbrev cut_frame : Text
cut_frame = replicate 12 0 ++ (8 ∷ 0 ∷ 79 ∷ replicate 19 0)

monitor-IsRead_example :
    IsRead
      (monitor default_options (timed_out ∷ readable (incoming cut_frame) (outgoing packet) ∷ []))
monitor-IsRead_example =
    monitor-IsRead default_options
      (timed_out ∷ readable (incoming cut_frame) (outgoing packet) ∷ [])

packet_ok-verdict : verdict (decode_protocol packet 0 12) ≡ some true
unfolding verdict decode_protocol
packet_ok-verdict = refl

decode_protocol-set_byte_example : verdict (decode_protocol (set_byte 9 3 packet) 0 12) ≡ some false
decode_protocol-set_byte_example =
    decode_protocol-set_byte packet 12 9 3 (omega arith) packet_ok-verdict (omega arith)
      (omega arith) (omega arith) (omega arith) (omega arith) (omega arith) (omega arith)

port_too_large : parse_options (codes "--port" ∷ codes "65536" ∷ []) default_options ≡ none
unfolding parse_options
port_too_large = refl

port_read :
    parse_options (codes "--promisc" ∷ codes "--port" ∷ codes " 123" ∷ []) default_options
    ≡ some (record default_options { promiscuous = true; udp_port = 123 })
unfolding parse_options
port_read = refl
