-- ===== src/Gateway/Packets.antt =====
-- The decoding of frames in gateway/youyeetoo_eth_gateway.c. Bytes are numbers below 256.
use youyeetoo_rk3588_toolkit.Prelude.{
  ℕ, zero, suc, ◌+◌, ◌-◌, ◌*◌, ◌/◌, ◌%◌, Bool, not, ◌&&◌, ◌||◌, [], ◌∷◌, Option, none, some, ltb,
  leb, ◌==◌, length, get_elem?, if◌then◌else◌,
}
use youyeetoo_rk3588_toolkit.Prelude.Text.{Text, codes}

-- What follows a part that may read past the end.
unfoldable pub with_result : {A B : Type 0} → Option B → (B → Option A) → Option A
with_result none k = none
with_result (some b) k = k b

module _ {A : Type 0} where
  -- A byte of a buffer; `none` where it is read past the end.
  unfoldable pub with_byte : Text → ℕ → (ℕ → Option A) → Option A
  with_byte bytes i k = elim (get_elem? bytes i) [ none ↦ none | some b ↦ k b ]

  -- Two bytes, the higher one first: (data[i] << 8) | data[i + 1].
  unfoldable pub with_word : Text → ℕ → (ℕ → Option A) → Option A
  unfolding with_byte
  with_word bytes i k =
      with_byte bytes i (λ high. with_byte bytes (i + 1) (λ low. k (high * 256 + low)))

  -- An address: ntohl of four bytes.
  unfoldable pub with_address : Text → ℕ → (ℕ → Option A) → Option A
  unfolding with_word
  with_address bytes i k =
      with_word bytes i (λ high. with_word bytes (i + 2) (λ low. k (high * 65536 + low)))

-- inet_pton and ntohl of an address a.b.c.d.
unfoldable pub ip_value : (a b c d : ℕ) → ℕ
ip_value a b c d = ((a * 256 + b) * 256 + c) * 256 + d

-- The addresses of the network 10.240.1 that flow_priority names.
abbrev pub host : ℕ → ℕ
host d = ip_value 10 240 1 d

-- ip_in_10_2_1, for an address of 32 bits.
unfoldable pub ip_in_10_2_1 : ℕ → Bool
ip_in_10_2_1 ip = ip - ip % 65536 == 167903232

-- is_pair
unfoldable pub is_pair : (a b x y : ℕ) → Bool
is_pair a b x y = (a == x && b == y) || (a == y && b == x)

-- flow_priority: the priority and the name of the flow.
unfoldable pub flow_priority : (src dst : ℕ) → ℕ × Text
unfolding ip_value ip_in_10_2_1 is_pair
flow_priority src dst =
    if src == host 36 || dst == host 36
    then (0, codes "upload/platform-interaction")
    else if is_pair src dst (host 38) (host 50) || (ip_in_10_2_1 src || ip_in_10_2_1 dst)
    then (1, codes "business")
    else if is_pair src dst (host 35) (host 51) || is_pair src dst (host 39) (host 52)
    then (2, codes "management/log")
    else if is_pair src dst (host 37) (host 40)
    then (1, codes "S1-C/S1-U")
    else (3, codes "other")

-- The sum of n bytes from an index on.
unfoldable pub sum_bytes : Text → (i n : ℕ) → Option ℕ
unfolding with_result with_byte
sum_bytes bytes i zero = some 0
sum_bytes bytes i (suc n) =
    let rest = sum_bytes bytes (i + 1) n in
    with_byte bytes i (λ b. with_result rest (λ sum. some (b + sum)))

-- The n bytes from an index on, as print_payload logs them. (Its limit of 65536 bytes is more than a
-- datagram has.)
unfoldable pub read_bytes : Text → (i n : ℕ) → Option Text
unfolding with_result with_byte
read_bytes bytes i zero = some []
read_bytes bytes i (suc n) =
    let rest = read_bytes bytes (i + 1) n in
    with_byte bytes i (λ b. with_result rest (λ bs. some (b ∷ bs)))

-- protocol_checksum, of the packet at an index of the frame.
unfoldable pub protocol_checksum : Text → (base data_length : ℕ) → Option ℕ
unfolding with_result sum_bytes
protocol_checksum bytes base data_length = with_result (sum_bytes bytes (base + 2) 6) (λ head.
    with_result (sum_bytes bytes (base + 8) data_length)
      (λ body. some (65535 - (head + body) % 65536)))

pub record Header : Type 0 where
  pub marker : ℕ
  pub version : ℕ
  pub packet_type : ℕ
  pub secondary : ℕ
  pub apid : ℕ
  pub grouping : ℕ
  pub sequence : ℕ
  pub data_length : ℕ

-- What is logged behind the payload.
pub data Trailer : Type 0 where
  file_block : (block bytes : ℕ) → Trailer
  opcode : ℕ → Trailer
  no_trailer : Trailer

-- What is logged behind the header.
pub data Body : Type 0 where
  truncated : (expected : ℕ) → Body
  whole : (checksum_ok : Bool) (received calculated : ℕ) (payload : Text) → Trailer → Body

pub data Protocol : Type 0 where
  short : (bytes : ℕ) → Protocol
  opaque : (payload : Text) → Protocol
  decoded : Header → Body → Protocol

-- The end of decode_protocol. As everywhere below, the packet begins at an index of the frame, and
-- its bytes are read from the frame.
unfoldable pub trailer_of : Header → Text → (base : ℕ) → Option Trailer
unfolding with_word
trailer_of h bytes base =
    if h.marker == 60304 && (leb 2 h.data_length && h.apid % 16 == 15)
    then with_word bytes (base + 8) (λ block. some (file_block block (h.data_length - 2)))
    else if leb 2 h.data_length
    then with_word bytes (base + 8) (λ code. some (opcode code))
    else some no_trailer

-- The checksum, the payload and what is logged behind it.
unfoldable pub decode_body : Header → Text → (base size : ℕ) → Option Body
unfolding with_result with_word protocol_checksum read_bytes trailer_of
decode_body h bytes base size =
    let expected = 8 + h.data_length + 2 in
    let trailer = trailer_of h bytes base in
    let checksum = protocol_checksum bytes base h.data_length in
    let logged = read_bytes bytes base (if leb expected size then expected else size) in
    if ltb size expected
    then some (truncated expected)
    else with_word bytes (base + 8 + h.data_length) (λ received. with_result checksum (λ calculated.
      with_result logged (λ payload.
        with_result trailer
          (λ t. some (whole (received == calculated) received calculated payload t)))))

-- The header of a packet with a marker, from its three words.
abbrev pub header_of : (marker word1 word2 data_field_minus_one : ℕ) → Header
header_of marker word1 word2 data_field_minus_one = record {
  marker = marker;
  version = word1 / 8192 % 8;
  packet_type = word1 / 4096 % 2;
  secondary = word1 / 2048 % 2;
  apid = word1 % 2048;
  grouping = word2 / 16384 % 4;
  sequence = word2 % 16384;
  data_length = data_field_minus_one + 1;
}

unfoldable pub decode_packet : (marker : ℕ) → Text → (base size : ℕ) → Option Protocol
unfolding with_result with_word decode_body
decode_packet marker bytes base size = with_word bytes (base + 2) (λ word1.
    with_word bytes (base + 4) (λ word2. with_word bytes (base + 6) (λ last.
      with_result (decode_body (header_of marker word1 word2 last) bytes base size)
        (λ body. some (decoded (header_of marker word1 word2 last) body)))))

-- decode_protocol, for a pointer to an index of the frame and a number of bytes.
unfoldable pub decode_protocol : Text → (base size : ℕ) → Option Protocol
unfolding with_result with_word read_bytes decode_packet
decode_protocol bytes base size =
    let logged = read_bytes bytes base size in
    if ltb size 10
    then some (short size)
    else with_word bytes base (λ marker.
      if not (marker == 60304) && not (marker == 6863)
      then with_result logged (λ payload. some (opaque payload))
      else decode_packet marker bytes base size)

-- What is logged of a UDP datagram.
pub data UdpReport : Type 0 where
  no_udp : UdpReport
  udp_ports : (source destination : ℕ) → UdpReport
  udp_protocol : (source destination : ℕ) → Protocol → UdpReport

pub record FrameReport : Type 0 where
  pub source : ℕ
  pub destination : ℕ
  pub protocol : ℕ
  pub bytes : ℕ
  pub flow : ℕ × Text
  pub udp : UdpReport

-- What inspect_frame does: it returns early, or logs a line.
pub data Inspection : Type 0 where
  ignored : Inspection
  reported : FrameReport → Inspection

-- The part of inspect_frame for UDP, whose header begins at an offset.
unfoldable pub inspect_udp : (protocol_port offset : ℕ) → Text → Option UdpReport
unfolding with_result with_word decode_protocol
inspect_udp protocol_port offset frame = with_word frame offset (λ source.
    with_word frame (offset + 2) (λ destination. with_word frame (offset + 4) (λ udp_length.
      let protocol = decode_protocol frame (offset + 8) (udp_length - 8) in
      if leb 8 udp_length && leb (offset + udp_length) (length frame)
      then (if source == protocol_port || destination == protocol_port
          then with_result protocol (λ p. some (udp_protocol source destination p))
          else some (udp_ports source destination))
      else some no_udp)))

-- The report on a packet of IP whose header begins at an offset.
unfoldable pub report_ip : (protocol_port l3 header_length : ℕ) → Text → Option Inspection
unfolding with_result with_byte with_address flow_priority inspect_udp
report_ip protocol_port l3 header_length frame = with_byte frame (l3 + 9) (λ protocol.
    with_address frame (l3 + 12) (λ source. with_address frame (l3 + 16) (λ destination.
      let datagram = inspect_udp protocol_port (l3 + header_length) frame in
      let udp =
        if protocol == 17 && leb (l3 + header_length + 8) (length frame)
        then datagram
        else some no_udp in
      with_result udp (λ u. some (
        reported (record {
          source = source;
          destination = destination;
          protocol = protocol;
          bytes = length frame;
          flow = flow_priority source destination;
          udp = u;
        }))))))

-- The part of inspect_frame behind the type of the frame.
unfoldable pub inspect_ip : (protocol_port l3 ethertype : ℕ) → Text → Option Inspection
unfolding with_byte report_ip
inspect_ip protocol_port l3 ethertype frame =
    let read = with_byte frame l3 (λ first.
      let header_length = first % 16 * 4 in
      let report = report_ip protocol_port l3 header_length frame in
      if not (first / 16 == 4) || (ltb header_length 20 || ltb (length frame) (l3 + header_length))
      then some ignored
      else report) in
    if not (ethertype == 2048) || ltb (length frame) (l3 + 20) then some ignored else read

-- inspect_frame
unfoldable pub inspect_frame : (protocol_port : ℕ) → Text → Option Inspection
unfolding with_word inspect_ip
inspect_frame protocol_port frame =
    let read = with_word frame 12 (λ ethertype.
      let tagged = with_word frame 16 (λ inner. inspect_ip protocol_port 18 inner frame) in
      let plain = inspect_ip protocol_port 14 ethertype frame in
      if ethertype == 33024 && leb 18 (length frame) then tagged else plain) in
    if ltb (length frame) 14 then some ignored else read
