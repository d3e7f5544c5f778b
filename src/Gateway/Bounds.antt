-- ===== src/Gateway/Bounds.antt =====
-- The functions of gateway/youyeetoo_eth_gateway.c read no byte past the end of a frame.
use youyeetoo_rk3588_toolkit.Prelude.{
  ℕ, zero, suc, ◌+◌, ◌-◌, ◌*◌, ◌%◌, ◌<◌, ◌≤◌, ◌≡◌, refl, Bool, true, false, not, ◌&&◌, ◌||◌, List,
  [], ◌∷◌, Option, none, some, is_some, ltb, leb, ◌==◌, length, arith, if◌then◌else◌,
}
use youyeetoo_rk3588_toolkit.Prelude.Text.{Text}
use youyeetoo_rk3588_toolkit.Gateway.{
  Options, PollResult, interrupted, poll_failed, timed_out, readable,
}
use youyeetoo_rk3588_toolkit.Gateway.Monitor.{frames_of, inspect_all, monitor}
use youyeetoo_rk3588_toolkit.Gateway.Packets.{
  with_result, with_byte, with_word, with_address, sum_bytes, read_bytes, protocol_checksum, Header,
  trailer_of, decode_body, decode_packet, decode_protocol, inspect_udp, report_ip, inspect_ip,
  inspect_frame,
}

-- A function that reads no byte past the end.
abbrev pub IsRead {ℓ} : {A : Type ℓ} → Option A → Type 0
IsRead o = is_some o ≡ true

module _ {A : Type 0} where
  with_byte-IsRead :
      (bytes : Text) (i : ℕ) (k : ℕ → Option A)
      → i < length bytes
      → ((b : ℕ) → IsRead (k b))
      → IsRead (with_byte bytes i k)
  unfolding with_byte
  with_byte-IsRead [] i k l h = ground arith
  with_byte-IsRead (b ∷ bytes) zero k l h = h b
  with_byte-IsRead (b ∷ bytes) (suc i) k l h = with_byte-IsRead bytes i k (omega arith) h

  with_word-IsRead :
      (bytes : Text) (i : ℕ) (k : ℕ → Option A)
      → i + 1 < length bytes
      → ((b : ℕ) → IsRead (k b))
      → IsRead (with_word bytes i k)
  unfolding with_word
  with_word-IsRead bytes i k l h =
      with_byte-IsRead bytes i _ (omega arith)
        (λ high. with_byte-IsRead bytes (i + 1) _ l (λ low. h (high * 256 + low)))

  with_address-IsRead :
      (bytes : Text) (i : ℕ) (k : ℕ → Option A)
      → i + 3 < length bytes
      → ((b : ℕ) → IsRead (k b))
      → IsRead (with_address bytes i k)
  unfolding with_address
  with_address-IsRead bytes i k l h =
      with_word-IsRead bytes i _ (omega arith)
        (λ high. with_word-IsRead bytes (i + 2) _ (omega arith) (λ low. h (high * 65536 + low)))

  if-IsRead :
      (b : Bool) (x y : Option A)
      → (b ≡ true → IsRead x)
      → (b ≡ false → IsRead y)
      → IsRead (if b then x else y)
  if-IsRead true x y f g = f refl
  if-IsRead false x y f g = g refl

  with_result-IsRead :
      {B : Type 0} (o : Option B) (k : B → Option A)
      → IsRead o
      → ((b : B) → IsRead (k b))
      → IsRead (with_result o k)
  unfolding with_result
  with_result-IsRead none k h g = ground arith
  with_result-IsRead (some b) k h g = g b

sum_bytes-IsRead : (bytes : Text) (i n : ℕ) → i + n ≤ length bytes → IsRead (sum_bytes bytes i n)
unfolding sum_bytes
sum_bytes-IsRead bytes i zero l = refl
sum_bytes-IsRead bytes i (suc n) l = with_byte-IsRead bytes i _ (omega arith) (λ b.
    with_result-IsRead (sum_bytes bytes (i + 1) n) (λ sum. some (b + sum))
      (sum_bytes-IsRead bytes (i + 1) n (omega arith)) (λ sum. refl))

pub read_bytes-IsRead :
    (bytes : Text) (i n : ℕ) → i + n ≤ length bytes → IsRead (read_bytes bytes i n)
unfolding read_bytes
read_bytes-IsRead bytes i zero l = refl
read_bytes-IsRead bytes i (suc n) l = with_byte-IsRead bytes i _ (omega arith) (λ b.
    with_result-IsRead (read_bytes bytes (i + 1) n) (λ bs. some (b ∷ bs))
      (read_bytes-IsRead bytes (i + 1) n (omega arith)) (λ bs. refl))

pub protocol_checksum-IsRead :
    (bytes : Text) (base n : ℕ)
    → base + 8 + n ≤ length bytes
    → IsRead (protocol_checksum bytes base n)
unfolding protocol_checksum
protocol_checksum-IsRead bytes base n l =
    with_result-IsRead (sum_bytes bytes (base + 2) 6) _
      (sum_bytes-IsRead bytes (base + 2) 6 (omega arith))
      (λ head.
        with_result-IsRead (sum_bytes bytes (base + 8) n)
          (λ body. some (65535 - (head + body) % 65536))
          (sum_bytes-IsRead bytes (base + 8) n (omega arith)) (λ body. refl))

pub trailer_of-IsRead :
    (h : Header) (bytes : Text) (base : ℕ)
    → base + 10 ≤ length bytes
    → IsRead (trailer_of h bytes base)
unfolding trailer_of
trailer_of-IsRead h bytes base l =
    let inside : base + 8 + 1 < length bytes = omega arith in search (if-IsRead, with_word-IsRead)

decode_body-IsRead :
    (h : Header) (bytes : Text) (base size : ℕ)
    → 10 ≤ size
    → base + size ≤ length bytes
    → IsRead (decode_body h bytes base size)
unfolding decode_body
decode_body-IsRead h bytes base size long l =
    if-IsRead (ltb size (8 + h.data_length + 2)) _ _ (λ _. refl)
      (λ fits.
        let inside : base + 8 + h.data_length + 1 < length bytes = ground arith in
        let summed : IsRead (protocol_checksum bytes base h.data_length) =
          protocol_checksum-IsRead bytes base h.data_length (omega arith) in
        let logged : IsRead (
            read_bytes bytes base
              (if leb (8 + h.data_length + 2) size then 8 + h.data_length + 2 else size)) =
          read_bytes-IsRead bytes base _ (ground arith) in
        let trailed : IsRead (trailer_of h bytes base) =
          trailer_of-IsRead h bytes base (omega arith) in
        search (with_word-IsRead, with_result-IsRead) depth 9)

decode_packet-IsRead :
    (marker : ℕ) (bytes : Text) (base size : ℕ)
    → 10 ≤ size
    → base + size ≤ length bytes
    → IsRead (decode_packet marker bytes base size)
unfolding decode_packet
decode_packet-IsRead marker bytes base size long l =
    let second : base + 2 + 1 < length bytes = omega arith in
    let third : base + 4 + 1 < length bytes = omega arith in
    let fourth : base + 6 + 1 < length bytes = omega arith in
    let body : (h : Header) → IsRead (decode_body h bytes base size) =
      λ h. decode_body-IsRead h bytes base size long l in
    search (with_word-IsRead, with_result-IsRead)

-- Whatever bytes a frame has, decoding a part that it has reads none past its end.
pub decode_protocol-IsRead :
    (bytes : Text) (base size : ℕ)
    → base + size ≤ length bytes
    → IsRead (decode_protocol bytes base size)
unfolding decode_protocol
decode_protocol-IsRead bytes base size l =
    if-IsRead (ltb size 10) _ _ (λ _. refl)
      (λ long.
        let first : base + 1 < length bytes = ground arith in
        let logged : IsRead (read_bytes bytes base size) = read_bytes-IsRead bytes base size l in
        let packet : (marker : ℕ) → IsRead (decode_packet marker bytes base size) =
          λ marker. decode_packet-IsRead marker bytes base size (ground arith) l in
        search (with_word-IsRead, if-IsRead, with_result-IsRead) depth 9)

inspect_udp-IsRead :
    (port offset : ℕ) (frame : Text)
    → offset + 8 ≤ length frame
    → IsRead (inspect_udp port offset frame)
unfolding inspect_udp
inspect_udp-IsRead port offset frame l =
    let first : offset + 1 < length frame = omega arith in
    let second : offset + 2 + 1 < length frame = omega arith in
    let third : offset + 4 + 1 < length frame = omega arith in
    let protocol : (udp_length : ℕ)
        → (leb 8 udp_length && leb (offset + udp_length) (length frame)) ≡ true
        → IsRead (decode_protocol frame (offset + 8) (udp_length - 8)) =
      λ udp_length fits.
        decode_protocol-IsRead frame (offset + 8) (udp_length - 8) (ground arith) in
    search (with_word-IsRead, if-IsRead, with_result-IsRead) depth 12

report_ip-IsRead :
    (port l3 header_length : ℕ) (frame : Text)
    → l3 + 20 ≤ length frame
    → IsRead (report_ip port l3 header_length frame)
unfolding report_ip
report_ip-IsRead port l3 header_length frame l =
    let protocol : l3 + 9 < length frame = omega arith in
    let source : l3 + 12 + 3 < length frame = omega arith in
    let destination : l3 + 16 + 3 < length frame = omega arith in
    let udp : (b : Bool)
        → (b && leb (l3 + header_length + 8) (length frame)) ≡ true
        → IsRead (inspect_udp port (l3 + header_length) frame) =
      λ b h. inspect_udp-IsRead port (l3 + header_length) frame (ground arith) in
    search (with_byte-IsRead, with_address-IsRead, with_result-IsRead, if-IsRead) depth 9

inspect_ip-IsRead :
    (port l3 ethertype : ℕ) (frame : Text) → IsRead (inspect_ip port l3 ethertype frame)
unfolding inspect_ip
inspect_ip-IsRead port l3 ethertype frame =
    if-IsRead (not (ethertype == 2048) || ltb (length frame) (l3 + 20)) _ _ (λ _. refl)
      (λ long.
        let first : l3 < length frame = ground arith in
        let report : (header_length : ℕ) → IsRead (report_ip port l3 header_length frame) =
          λ n. report_ip-IsRead port l3 n frame (ground arith) in
        search (with_byte-IsRead, if-IsRead))

-- Whatever bytes a frame has, inspecting it reads none past its end, for any port.
pub inspect_frame-IsRead : (port : ℕ) (frame : Text) → IsRead (inspect_frame port frame)
unfolding inspect_frame
inspect_frame-IsRead port frame =
    if-IsRead (ltb (length frame) 14) _ _ (λ _. refl)
      (λ long.
        let type : 12 + 1 < length frame = ground arith in
        with_word-IsRead frame 12 _ type (λ ethertype.
          if-IsRead (ethertype == 33024 && leb 18 (length frame)) _ _
            (λ tagged.
              with_word-IsRead frame 16 _ (ground arith)
                (λ inner. inspect_ip-IsRead port 18 inner frame))
            (λ plain. inspect_ip-IsRead port 14 ethertype frame)))

inspect_all-IsRead : (o : Options) (frames : List (Text × Text)) → IsRead (inspect_all o frames)
unfolding inspect_all
inspect_all-IsRead o [] = refl
inspect_all-IsRead o ((name, frame) ∷ rest) =
    let first = inspect_frame-IsRead o.udp_port frame in
    let further = inspect_all-IsRead o rest in search with_result-IsRead

-- Whatever poll and recvfrom give, the loop of the monitor reads no byte past the end of a frame.
pub monitor-IsRead : (o : Options) (polls : List PollResult) → IsRead (monitor o polls)
unfolding monitor
monitor-IsRead o [] = refl
monitor-IsRead o (poll_failed ∷ polls) = refl
monitor-IsRead o (interrupted ∷ polls) = monitor-IsRead o polls
monitor-IsRead o (timed_out ∷ polls) = monitor-IsRead o polls
monitor-IsRead o (readable payload x ∷ polls) =
    let now = inspect_all-IsRead o (frames_of o (readable payload x)) in
    let further = monitor-IsRead o polls in search with_result-IsRead
