-- ===== src/Message/ExchangeHeader.antt =====
-- The setters of the exchange header in src/message/Message.js as updates of a packet's fields.
use matternode.Prelude.{
  ℕ, ◌+◌, ◌-◌, ◌^◌, ◌<◌, ◌≡◌, refl, sym, ap, ap₂, ◌∙◌, bit_and, bit_or, Bool, true, Option, none,
  some, [], ◌++◌, append_assoc, arith, length, length-append, if◌then◌else◌, ◌==◌, take, drop, ok,
}
use matternode.Buffer.{Buffer, le_bytes, alloc}
use matternode.Buffer.Laws.{read_le-bytes, write_le-over, length-alloc, take_prefix, drop_prefix}
use matternode.MsgCodec.{has_flag}
use matternode.MsgCodec.Layout.{optional_bytes, header_bytes, protocol_bytes}
use matternode.Message.{
  Message, put, open_gap, dsiz, destination_offset, payload_offset, payload, put_payload,
  set_exchange_flags, set_protocol_opcode, set_exchange_id, set_protocol_id, set_ack_counter,
  append_app_payload, exchange_flags, exchange_flag, set_exchange_flag,
}
use matternode.Message.Parse.{is_given, Announces}
use matternode.Message.Packet.{Packet, packet_bytes}
use matternode.Message.Refine.{framed, message_flags-framed, s_flag-framed}

-- The message header of a packet, and its length.
abbrev pub header : Packet → Buffer
header p = header_bytes p.flags p.security p.session p.counter p.source p.destination

abbrev pub offset_of : Packet → ℕ
offset_of p = 8 + (if is_given p.source then 8 else 0) + (if is_given p.destination then 8 else 0)

pub length-header : (p : Packet) → length (header p) ≡ offset_of p
unfolding header_bytes
length-header p = sizes p.source p.destination
  where
    sizes :
        (o d : Option ℕ)
        → length (header (record p { source = o; destination = d }))
          ≡ offset_of (record p { source = o; destination = d })
    sizes none none = refl
    sizes none (some v) = refl
    sizes (some u) none = refl
    sizes (some u) (some v) = refl

-- The part of the exchange header that is always there.
abbrev exchange_part : Packet → Buffer
exchange_part p =
    le_bytes 1 p.exchange_bits
    ++ (le_bytes 1 p.opcode ++ (le_bytes 2 p.exchange ++ le_bytes 2 p.protocol))

packet_bytes-acked :
    (p : Packet) (ack : Option ℕ)
    → packet_bytes (record p { ack = ack })
      ≡ (header p ++ exchange_part p) ++ (optional_bytes 4 ack ++ p.app)
unfolding packet_bytes protocol_bytes
packet_bytes-acked p ack =
    sym (append_assoc (header p) (exchange_part p) (optional_bytes 4 ack ++ p.app))

open_gap_lem :
    (m : Message) (n k : ℕ) (xs ys : Buffer)
    → m.buffer ≡ xs ++ ys
    → length xs ≡ n
    → open_gap m n k ≡ record m { buffer = xs ++ (alloc k ++ ys) }
unfolding open_gap
open_gap_lem m n k xs ys e at =
    ap₂ (λ s t. record m { buffer = s ++ (alloc k ++ t) }) (ap (take n) e ∙ take_prefix n xs ys at)
      (ap (drop n) e ∙ drop_prefix n xs ys at)

module _ (p : Packet) (small : p.flags < 256)
    (told : Announces p.flags p.source p.destination) where
  pub payload_offset-framed : payload_offset (framed p) ≡ ok (offset_of p)
  unfolding payload_offset destination_offset dsiz
  payload_offset-framed =
      rw (s_flag-framed p small, told.source, message_flags-framed p small, told.destination)
        (ap (λ t. ok (8 + (if is_given p.source then 8 else 0) + t)) (size p.destination))
    where
      size :
          (d : Option ℕ)
          → ◌≡◌ {A = ℕ}
              (let n : ℕ = (if is_given d then 1 else 0) in
                if n == 1 then 8 else if n == 2 then 2 else 0)
              (if is_given d then 8 else 0)
      size none = refl
      size (some v) = refl

  -- A write of `k` bytes over old ones, `i` bytes into the payload.
  put_payload-over :
      (k v i : ℕ) (xs old ys : Buffer)
      → v < 256 ^ k
      → length xs ≡ i
      → length old ≡ k
      → packet_bytes p ≡ header p ++ (xs ++ (old ++ ys))
      → put_payload k (framed p) v i
        ≡ ok (record (framed p) { buffer = header p ++ (xs ++ (le_bytes k v ++ ys)) })
  unfolding put_payload put
  put_payload-over k v i xs old ys h at size split =
      rw (payload_offset-framed, split, ← append_assoc (header p) xs (old ++ ys))
        (rw
          (write_le-over k v (offset_of p + i) (header p ++ xs) old ys h
            (omega (arith, length-append (header p) xs, length-header p)) size)
          (ap (λ t. ok (record (framed p) { buffer = t }))
            (append_assoc (header p) xs (le_bytes k v ++ ys))))

  pub set_exchange_flags-framed :
      (v : ℕ)
      → v < 256
      → set_exchange_flags (framed p) v ≡ ok (framed (record p { exchange_bits = v }))
  unfolding set_exchange_flags packet_bytes protocol_bytes
  set_exchange_flags-framed v h =
      put_payload-over 1 v 0 [] (le_bytes 1 p.exchange_bits) _ h refl refl refl

  pub set_protocol_opcode-framed :
      (v : ℕ) → v < 256 → set_protocol_opcode (framed p) v ≡ ok (framed (record p { opcode = v }))
  unfolding set_protocol_opcode packet_bytes protocol_bytes
  set_protocol_opcode-framed v h =
      put_payload-over 1 v 1 (le_bytes 1 p.exchange_bits) (le_bytes 1 p.opcode) _ h refl refl refl

  pub set_exchange_id-framed :
      (v : ℕ) → v < 65536 → set_exchange_id (framed p) v ≡ ok (framed (record p { exchange = v }))
  unfolding set_exchange_id packet_bytes protocol_bytes
  set_exchange_id-framed v h =
      put_payload-over 2 v 2 (le_bytes 1 p.exchange_bits ++ le_bytes 1 p.opcode)
        (le_bytes 2 p.exchange) _ h refl refl refl

  pub set_protocol_id-framed :
      (v : ℕ) → v < 65536 → set_protocol_id (framed p) v ≡ ok (framed (record p { protocol = v }))
  unfolding set_protocol_id packet_bytes protocol_bytes
  set_protocol_id-framed v h =
      put_payload-over 2 v 4
        (le_bytes 1 p.exchange_bits ++ (le_bytes 1 p.opcode ++ le_bytes 2 p.exchange))
        (le_bytes 2 p.protocol) _ h refl refl refl

  pub exchange_flags-framed : p.exchange_bits < 256 → exchange_flags (framed p) ≡ ok p.exchange_bits
  unfolding exchange_flags payload packet_bytes protocol_bytes
  exchange_flags-framed h =
      rw (payload_offset-framed, drop_prefix (offset_of p) (header p) _ (length-header p))
        (read_le-bytes 1 p.exchange_bits 0 [] _ h refl)

  -- One flag of the exchange header, set or cleared.
  pub set_exchange_flag-framed :
      (mask : ℕ) (v : Bool)
      → p.exchange_bits < 256
      → (let bits =
            if v then bit_or p.exchange_bits mask else bit_and p.exchange_bits (255 - mask) in
          bits < 256
          → set_exchange_flag mask (framed p) v ≡ ok (framed (record p { exchange_bits = bits })))
  unfolding set_exchange_flag
  set_exchange_flag-framed mask v h k = rw (exchange_flags-framed h) (set_exchange_flags-framed _ k)

  -- With the A flag set the acknowledged counter is put behind the exchange header.
  pub set_ack_counter-framed :
      (v : ℕ)
      → p.exchange_bits < 256
      → has_flag p.exchange_bits 0x02 ≡ true
      → v < 4294967296
      → p.ack ≡ none
      → set_ack_counter (framed p) v ≡ ok (framed (record p { ack = some v }))
  unfolding set_ack_counter exchange_flag put
  set_ack_counter-framed v he told_ack h unacked =
      rw (payload_offset-framed, exchange_flags-framed he, told_ack)
        (rw
          (open_gap_lem (framed p) (offset_of p + 6) 4 (header p ++ exchange_part p) p.app bytes
            size)
          (rw
            (write_le-over 4 v (offset_of p + 6) (header p ++ exchange_part p) (alloc 4) p.app h
              size (length-alloc 4))
            (ap (λ t. ok (record (framed p) { buffer = t }))
              (sym (packet_bytes-acked p (some v))))))
    where
      size : length (header p ++ exchange_part p) ≡ offset_of p + 6
      size = omega (arith, length-append (header p) (exchange_part p), length-header p)

      bytes : packet_bytes p ≡ (header p ++ exchange_part p) ++ p.app
      bytes = ap (λ a. packet_bytes (record p { ack = a })) unacked ∙ packet_bytes-acked p none

pub append_app_payload-framed :
    (p : Packet) (b : Buffer)
    → append_app_payload (framed p) b ≡ framed (record p { app = p.app ++ b })
unfolding append_app_payload packet_bytes
append_app_payload-framed p b =
    rw (append_assoc (header p), append_assoc (protocol_bytes _ _ _ _ _ _))
