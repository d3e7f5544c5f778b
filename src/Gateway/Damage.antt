-- ===== src/Gateway/Damage.antt =====
-- Packets with a wrong byte in decode_protocol of gateway/youyeetoo_eth_gateway.c.
use youyeetoo_rk3588_toolkit.Prelude.{
  ℕ, ◌+◌, ◌*◌, ◌<◌, ◌≤◌, ◌≡◌, ◌≢◌, refl, sym, ap, ◌∙◌, Bool, true, false, not, ◌&&◌, Option, none,
  some, ltb, leb, ◌==◌, length, get_or, arith, if◌then◌else◌, Option-cases, Bool-cases, inl, inr,
}
use youyeetoo_rk3588_toolkit.Prelude.Text.{Text}
use youyeetoo_rk3588_toolkit.Gateway.Packets.{
  Header, Protocol, decode_body, decode_packet, decode_protocol, decoded, header_of, opaque,
  protocol_checksum, read_bytes, short, trailer_of, truncated, whole, with_result, with_word,
}
use youyeetoo_rk3588_toolkit.Gateway.Bounds.{
  IsRead, protocol_checksum-IsRead, read_bytes-IsRead, trailer_of-IsRead,
}
use youyeetoo_rk3588_toolkit.Gateway.Checksum.{
  get_or-set_byte_ne, length-set_byte, protocol_checksum-set_byte, set_byte, with_byte-get_or,
}

-- What decode_protocol logs of the checksum, if it comes to that: ok or BAD.
unfoldable pub verdict : Option Protocol → Option Bool
verdict (some (decoded h (whole checksum_ok received calculated payload t))) = some checksum_ok
verdict (some (decoded h (truncated expected))) = none
verdict (some (short bytes)) = none
verdict (some (opaque payload)) = none
verdict none = none

-- The word of two bytes that a packet has.
abbrev pub word : Text → ℕ → ℕ
word bytes i = get_or bytes i 0 * 256 + get_or bytes (i + 1) 0

with_word-word :
    {A : Type 0} (bytes : Text) (i : ℕ) (k : ℕ → Option A)
    → i + 1 < length bytes
    → with_word bytes i k ≡ k (word bytes i)
unfolding with_word
with_word-word bytes i k l =
    with_byte-get_or bytes i _ (omega arith) ∙ with_byte-get_or bytes (i + 1) _ l

is_some-some : {A : Type 0} (o : Option A) → IsRead o → (a : A) × (o ≡ some a)
is_some-some o h = elim (Option-cases o) [ inl e ↦ ground arith | inr s ↦ s ]

-- The end of a packet that is whole.
abbrev judged : Header → Text → ℕ → Option Protocol
judged h bytes size = with_result (decode_body h bytes 0 size) (λ body. some (decoded h body))

judged-truncated :
    (h : Header) (bytes : Text) (size : ℕ)
    → ltb size (8 + h.data_length + 2) ≡ true
    → verdict (judged h bytes size) ≡ none
unfolding decode_body verdict with_result
judged-truncated h bytes size cut = rw cut refl

judged-whole :
    (h : Header) (bytes : Text) (size calculated : ℕ)
    → ltb size (8 + h.data_length + 2) ≡ false
    → size ≤ length bytes
    → protocol_checksum bytes 0 h.data_length ≡ some calculated
    → verdict (judged h bytes size) ≡ some (word bytes (8 + h.data_length) == calculated)
unfolding decode_body verdict with_result
judged-whole h bytes size calculated fits l sums =
    let expected = 8 + h.data_length + 2 in
    let (payload, logged) =
      is_some-some (read_bytes bytes 0 (if leb expected size then expected else size))
        (read_bytes-IsRead bytes 0 (if leb expected size then expected else size) (ground arith)) in
    let (t, trailed) =
      is_some-some (trailer_of h bytes 0) (trailer_of-IsRead h bytes 0 (ground arith)) in
    rw (fits, with_word-word bytes (8 + h.data_length) _ (ground arith), sums, logged, trailed) refl

abbrev header_at : Text → Header
header_at bytes = header_of (word bytes 0) (word bytes 2) (word bytes 4) (word bytes 6)

-- The marker is neither of the two.
abbrev has_no_marker : Text → Bool
has_no_marker bytes = not (word bytes 0 == 60304) && not (word bytes 0 == 6863)

decode_protocol-short :
    (bytes : Text) (size : ℕ) → ltb size 10 ≡ true → verdict (decode_protocol bytes 0 size) ≡ none
unfolding decode_protocol verdict
decode_protocol-short bytes size few = rw few refl

decode_protocol-opaque :
    (bytes : Text) (size : ℕ)
    → ltb size 10 ≡ false
    → size ≤ length bytes
    → has_no_marker bytes ≡ true
    → verdict (decode_protocol bytes 0 size) ≡ none
unfolding decode_protocol verdict with_result
decode_protocol-opaque bytes size enough l m =
    let (payload, logged) =
      is_some-some (read_bytes bytes 0 size) (read_bytes-IsRead bytes 0 size (omega arith)) in
    rw (enough, with_word-word bytes 0 _ (ground arith), m, logged) refl

decode_protocol-judged :
    (bytes : Text) (size : ℕ)
    → ltb size 10 ≡ false
    → size ≤ length bytes
    → has_no_marker bytes ≡ false
    → decode_protocol bytes 0 size ≡ judged (header_at bytes) bytes size
unfolding decode_protocol decode_packet
decode_protocol-judged bytes size enough l m =
    rw
      (
        enough,
        with_word-word bytes 0 _ (ground arith),
        m,
        with_word-word bytes 2 _ (ground arith),
        with_word-word bytes 4 _ (ground arith),
        with_word-word bytes 6 _ (ground arith),
      )
      refl

-- What a packet with a good checksum has.
record IsGood (bytes : Text) (size : ℕ) : Type 0 where
  enough : ltb size 10 ≡ false
  marked : has_no_marker bytes ≡ false
  fits : ltb size (8 + (header_at bytes).data_length + 2) ≡ false

abbrev no_verdict : Option Bool
no_verdict = none

verdict-IsGood :
    (bytes : Text) (size : ℕ)
    → size ≤ length bytes
    → verdict (decode_protocol bytes 0 size) ≡ some true
    → IsGood bytes size
verdict-IsGood bytes size l good = elim (Bool-cases (ltb size 10)) [
  | inl few ↦
      let e : no_verdict ≡ some true = sym (decode_protocol-short bytes size few) ∙ good in
      ground arith
  | inr enough ↦ elim (Bool-cases (has_no_marker bytes)) [
    | inl m ↦
        let e : no_verdict ≡ some true =
          sym (decode_protocol-opaque bytes size enough l m) ∙ good in
        ground arith
    | inr m ↦ elim (Bool-cases (ltb size (8 + (header_at bytes).data_length + 2))) [
      | inl cut ↦
          let e : no_verdict ≡ some true =
            sym (judged-truncated (header_at bytes) bytes size cut)
            ∙ ap verdict (sym (decode_protocol-judged bytes size enough l m))
            ∙ good in
          ground arith
      | inr fits ↦ record { enough = enough; marked = m; fits = fits }
    ]
  ]
]

-- The verdict compares the last word with the checksum.
verdict-checksum :
    (bytes : Text) (size calculated : ℕ)
    → size ≤ length bytes
    → IsGood bytes size
    → protocol_checksum bytes 0 (header_at bytes).data_length ≡ some calculated
    → verdict (decode_protocol bytes 0 size)
      ≡ some (word bytes (8 + (header_at bytes).data_length) == calculated)
verdict-checksum bytes size calculated l g sums =
    ap verdict (decode_protocol-judged bytes size g.enough l g.marked)
    ∙ judged-whole (header_at bytes) bytes size calculated g.fits l sums

word-set_byte :
    (bytes : Text) (k b i : ℕ) → i ≢ k → i + 1 ≢ k → word (set_byte k b bytes) i ≡ word bytes i
word-set_byte bytes k b i h h' =
    rw (get_or-set_byte_ne k b i bytes h, get_or-set_byte_ne k b (i + 1) bytes h') refl

-- A packet with a good checksum and one wrong byte behind its marker, which is neither in the length
-- nor in the checksum, has a bad checksum for decode_protocol.
pub decode_protocol-set_byte :
    (bytes : Text) (size k b : ℕ)
    → size ≤ length bytes
    → verdict (decode_protocol bytes 0 size) ≡ some true
    → 2 ≤ k
    → k ≢ 6
    → k ≢ 7
    → k < 8 + (word bytes 6 + 1)
    → b < 256
    → get_or bytes k 0 < 256
    → b ≢ get_or bytes k 0
    → verdict (decode_protocol (set_byte k b bytes) 0 size) ≡ some false
decode_protocol-set_byte bytes size k b l good from six seven to small old differs =
    let changed = set_byte k b bytes in
    let n = word bytes 6 + 1 in
    let g = verdict-IsGood bytes size l good in
    let marker : word changed 0 ≡ word bytes 0 =
      word-set_byte bytes k b 0 (λ e. omega arith) (λ e. omega arith) in
    let announced : word changed 6 ≡ word bytes 6 =
      word-set_byte bytes k b 6 (λ e. six (sym e)) (λ e. seven (sym e)) in
    let received : word changed (8 + n) ≡ word bytes (8 + n) =
      word-set_byte bytes k b (8 + n) (λ e. omega arith) (λ e. omega arith) in
    let long : length changed ≡ length bytes = length-set_byte k b bytes in
    let room : 8 + n ≤ length bytes = ground (arith, g.fits) in
    let g' : IsGood changed size = record {
      enough = g.enough;
      marked = rw marker g.marked;
      fits = rw announced g.fits;
    } in
    let (c, sums) =
      is_some-some (protocol_checksum bytes 0 n)
        (protocol_checksum-IsRead bytes 0 n (omega arith)) in
    let (c', sums') =
      is_some-some (protocol_checksum changed 0 n)
        (protocol_checksum-IsRead changed 0 n (omega arith)) in
    let other : protocol_checksum changed 0 n ≢ protocol_checksum bytes 0 n =
      protocol_checksum-set_byte bytes n k b room from to small old differs in
    let apart : c' ≢ c = λ e. other (sums' ∙ ap some e ∙ sym sums) in
    let right : some (word bytes (8 + n) == c) ≡ some true =
      sym (verdict-checksum bytes size c l g sums) ∙ good in
    let equal : word bytes (8 + n) ≡ c = ground arith in
    let wrong : verdict (decode_protocol changed 0 size) ≡ some (word changed (8 + n) == c') =
      rw (sym announced) (verdict-checksum changed size c' (omega arith) g' (rw announced sums')) in
    wrong ∙ rw received (ground arith)
