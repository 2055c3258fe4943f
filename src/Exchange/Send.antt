-- ===== src/Exchange/Send.antt =====
-- What src/message/Exchange.js sends.
use matternode.Prelude.{
  ℕ, ◌^◌, ◌-◌, ◌∙◌, bit_or, bit_and, ◌>>=◌, ◌+◌, ◌<◌, ◌≡◌, refl, ap, Bool, true, false, none, some,
  arith, if◌then◌else◌, ok,
}
use matternode.Cipher.{AesCcm}
use matternode.MsgCodec.{has_flag}
use matternode.MsgCodec.Flags.{has_flag_1, has_flag_2}
use matternode.MsgCodec.Layout.{Fits}
use matternode.Message.{set_exchange_flag, set_ack_counter, set_a_flag}
use matternode.Message.Parse.{is_given, Announces}
use matternode.Message.Packet.{Packet}
use matternode.Message.Refine.{framed, session_id-framed}
use matternode.Message.ExchangeHeader.{
  set_exchange_id-framed, set_exchange_flags-framed, set_exchange_flag-framed,
  set_ack_counter-framed,
}
use matternode.Session.{Session, PeerInfo}
use matternode.Session.Send.{
  IsDraft, CanSend, Sends, initiator_packet, chosen_node, send_message-initiator,
}
use matternode.Exchange.{Exchange, frame_message, send_message}

-- The exchange flags that an exchange sets.
abbrev pub flags_of : Bool → Bool → Bool → ℕ
flags_of i r a = (if i then 1 else 0) + (if a then 2 else 0) + (if r then 4 else 0)

flags_small : (i r a : Bool) → flags_of i r a < 256
flags_small i r a = ground arith

i_step : (i : Bool) → (if i then bit_or 0 1 else bit_and 0 254) ≡ flags_of i false false
i_step true = refl
i_step false = refl

r_step :
    (i r : Bool)
    → (if r then bit_or (flags_of i false false) 4 else bit_and (flags_of i false false) 251)
      ≡ flags_of i r false
r_step true true = refl
r_step true false = refl
r_step false true = refl
r_step false false = refl

a_step : (i r : Bool) → bit_or (flags_of i r false) 2 ≡ flags_of i r true
a_step true true = refl
a_step true false = refl
a_step false true = refl
a_step false false = refl

flags_acked : (i r a : Bool) → has_flag (flags_of i r a) 0x02 ≡ a
flags_acked i r a = has_flag_2 (flags_of i r a) (flags_small i r a) ∙ ground arith

flags_initiator : (i r a : Bool) → has_flag (flags_of i r a) 0x01 ≡ i
flags_initiator i r a = has_flag_1 (flags_of i r a) (flags_small i r a) ∙ ground arith

-- The packet of a message of the exchange.
abbrev pub exchange_packet : Exchange → Packet → Packet
exchange_packet ex p = record p {
  exchange = ex.exchange_id;
  exchange_bits = flags_of ex.is_initiator ex.is_reliable ex.is_ack;
  ack = if ex.is_ack then some ex.ack_counter else none;
}

-- A new message with the protocol's values filled in.
pub record IsRequest (p : Packet) : Type 0 where
  pub blank_flags : p.flags ≡ 0
  pub no_source : p.source ≡ none
  pub no_destination : p.destination ≡ none
  pub no_ack : p.ack ≡ none
  pub session_fit : p.session < 65536
  pub opcode_fit : p.opcode < 256
  pub protocol_fit : p.protocol < 65536

module _ (ex : Exchange) (p : Packet) (request : IsRequest p) (id_fits : ex.exchange_id < 65536)
    (ack_fits : ex.ack_counter < 4294967296) where
  blank : Announces p.flags p.source p.destination
  blank = record {
    source = rw (request.blank_flags, request.no_source);
    destination = rw (request.blank_flags, request.no_destination);
  }

  small : p.flags < 256
  small = omega (arith, request.blank_flags)

  -- The packet with its exchange id and some exchange flags.
  abbrev at : ℕ → Packet
  at e = record p { exchange = ex.exchange_id; exchange_bits = e }

  flag_step :
      (mask e e' : ℕ) (v : Bool)
      → e < 256
      → e' < 256
      → (if v then bit_or e mask else bit_and e (255 - mask)) ≡ e'
      → set_exchange_flag mask (framed (at e)) v ≡ ok (framed (at e'))
  flag_step mask e e' v h h' step =
      set_exchange_flag-framed (at e) small blank mask v h (rw step h')
      ∙ ap (λ t. ok (framed (at t))) step

  acked :
      (i r a : Bool)
      → (if a
          then (do
            m ← set_a_flag (framed (at (flags_of i r false))) true
            set_ack_counter m ex.ack_counter)
          else ok (framed (at (flags_of i r false))))
        ≡ ok (
            framed (record (at (flags_of i r a)) { ack = if a then some ex.ack_counter else none }))
  acked i r false =
      ap (λ t. ok (framed (record (at (flags_of i r false)) { ack = t }))) request.no_ack
  acked i r true =
      rw
        (flag_step 0x02 (flags_of i r false) (flags_of i r true) true (flags_small i r false)
          (flags_small i r true) (a_step i r))
        (set_ack_counter-framed (at (flags_of i r true)) small blank ex.ack_counter
          (flags_small i r true) (flags_acked i r true) ack_fits request.no_ack)

  -- Where its id and its counter fit their fields, an exchange frames a new request with its id, its
  -- flags and, if it acknowledges, the counter.
  pub frame_message-framed : frame_message ex (framed p) ≡ ok (framed (exchange_packet ex p))
  unfolding frame_message
  frame_message-framed =
      rw
        (
          set_exchange_id-framed p small blank ex.exchange_id id_fits,
          set_exchange_flags-framed (record p { exchange = ex.exchange_id }) small blank 0
              (omega arith),
          flag_step 0x01 0 (flags_of ex.is_initiator false false) ex.is_initiator (omega arith)
              (flags_small ex.is_initiator false false) (i_step ex.is_initiator),
          flag_step 0x04 (flags_of ex.is_initiator false false)
              (flags_of ex.is_initiator ex.is_reliable false) ex.is_reliable
              (flags_small ex.is_initiator false false)
              (flags_small ex.is_initiator ex.is_reliable false)
              (r_step ex.is_initiator ex.is_reliable),
        )
        (acked ex.is_initiator ex.is_reliable ex.is_ack)

  exchange_packet-IsDraft : IsDraft (exchange_packet ex p)
  exchange_packet-IsDraft = record {
    no_source = request.no_source;
    no_destination = request.no_destination;
    exchange_bits_fit = flags_small ex.is_initiator ex.is_reliable ex.is_ack;
    exchange_fit = id_fits;
    opcode_fit = request.opcode_fit;
    protocol_fit = request.protocol_fit;
    ack_fit = fits ex.is_ack;
    acked = flags_acked ex.is_initiator ex.is_reliable ex.is_ack ∙ given ex.is_ack;
  }
    where
      fits : (a : Bool) → Fits 4 (if a then some ex.ack_counter else none)
      fits true = ack_fits
      fits false = tt

      given : (a : Bool) → a ≡ is_given (if a then some ex.ack_counter else none)
      given true = refl
      given false = refl

  -- Where the numbers fit their fields, a new request that is sent by the initiator's exchange on an
  -- unsecured session that knows an address reaches the transport
  -- with the exchange's id, its flags and acknowledgement, the session's counter and node id.
  pub send_message-initiator_exchange :
      (aes : AesCcm) (s : Session) (peer : PeerInfo) (random : ℕ)
      → CanSend s peer
      → s.peer_session_id ≡ 0
      → ex.is_initiator ≡ true
      → chosen_node s random < 256 ^ 8
      → Sends s peer
          (initiator_packet s (exchange_packet ex p) (chosen_node s random))
          (some (chosen_node s random))
          (send_message aes ex s (framed p) random)
  unfolding send_message
  send_message-initiator_exchange aes s peer random can unsecured initiates fits =
      rw (frame_message-framed, session_id-framed (exchange_packet ex p) request.session_fit)
        (send_message-initiator aes s peer (exchange_packet ex p) exchange_packet-IsDraft can random
          unsecured (flags_initiator ex.is_initiator ex.is_reliable ex.is_ack ∙ initiates) fits)
