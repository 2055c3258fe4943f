-- ===== src/Message/HeaderFlags.antt =====
-- The setters of Sflag, Dsiz, Iflag, Aflag and Rflag in src/message/Message.js.
use matternode.Prelude.{
  ℕ, ◌-◌, ◌/◌, ◌%◌, ◌<◌, ◌≡◌, refl, bit_and, bit_or, Bool, true, false, arith, ◌==◌, ltb, all_below,
  all_below_sound₂, all_below_sound, ◌^◌, ap, if◌then◌else◌, ok, beq, ◌&&◌, ◌||◌,
}
use matternode.MsgCodec.{has_flag}
use matternode.MsgCodec.Flags.{beq→≡, bit_and_3, bit_and_4}
use matternode.Message.{
  Message, version, s_flag, dsiz, mask_and_set, set_s_flag, set_dsiz, exchange_flag,
  set_exchange_flag,
}
use matternode.Message.Parse.{Announces}
use matternode.Message.Packet.{Packet}
use matternode.Message.Refine.{
  framed, message_flags-framed, s_flag-framed, set_message_flags-framed,
}
use matternode.Message.ExchangeHeader.{exchange_flags-framed, set_exchange_flag-framed}

pub mask_and_set-framed :
    (mask : ℕ) (p : Packet) (v : ℕ)
    → p.flags < 256
    → bit_and p.flags mask < 256
    → bit_or (bit_and p.flags mask) (bit_and v mask) < 256
    → mask_and_set mask (framed p) v
      ≡ ok (framed (record p { flags = bit_or (bit_and p.flags mask) (bit_and v mask) }))
unfolding mask_and_set
mask_and_set-framed mask p v h h₁ h₂ =
    rw (message_flags-framed p h, set_message_flags-framed p _ h₁)
      (rw (message_flags-framed (record p { flags = bit_and p.flags mask }) h₁)
        (set_message_flags-framed (record p { flags = bit_and p.flags mask }) _ h₂))

-- What a write of DSIZ and one of the source flag leave of the flag byte.
abbrev dsiz_write : ℕ → ℕ → ℕ
dsiz_write f v = bit_or (bit_and f 0x03) (bit_and v 0x03)

abbrev s_flag_write : ℕ → ℕ → ℕ
s_flag_write f v = bit_or (bit_and f 0x04) (bit_and v 0x04)

dsiz_write_facts :
    (f v : ℕ)
    → f < 256
    → v < 4
    → (dsiz_write f v < 4)
      × (bit_and (dsiz_write f v) 0x03 ≡ bit_or (f % 4) v)
      × (has_flag (dsiz_write f v) 0x04 ≡ false)
unfolding all_below
dsiz_write_facts f v hf hv = ground (arith, all_below_sound₂ 256 4 agrees f v refl hf hv)
  where
    agrees : ℕ → ℕ → Bool
    agrees f v =
        ltb (dsiz_write f v) 4
        && bit_and (dsiz_write f v) 0x03 == bit_or (f % 4) v
        && beq (has_flag (dsiz_write f v) 0x04) false

s_flag_write_facts :
    (f v : ℕ)
    → f < 256
    → v < 8
    → (s_flag_write f v < 8)
      × (bit_and (s_flag_write f v) 0x03 ≡ 0)
      × (has_flag (s_flag_write f v) 0x04 ≡ (has_flag f 0x04 || has_flag v 0x04))
unfolding all_below
s_flag_write_facts f v hf hv =
    let h = all_below_sound₂ 256 8 agrees f v refl hf hv in
    (ground arith, ground arith, beq→≡ _ _ (ground arith))
  where
    agrees : ℕ → ℕ → Bool
    agrees f v =
        ltb (s_flag_write f v) 8
        && bit_and (s_flag_write f v) 0x03 == 0
        && beq (has_flag (s_flag_write f v) 0x04) (has_flag f 0x04 || has_flag v 0x04)

-- On flags of one byte, writing a Dsiz below 4 loses the source flag and the version, and clears no bit
-- of the old DSIZ.
pub set_dsiz_lem :
    (p : Packet) (v : ℕ)
    → p.flags < 256
    → v < 4
    → (m : Message) × (set_dsiz (framed p) v ≡ ok m)
      × (dsiz m ≡ ok (bit_or (p.flags % 4) v))
      × (s_flag m ≡ ok false)
      × (version m ≡ ok 0)
unfolding set_dsiz dsiz version
set_dsiz_lem p v hf hv = (
  framed q,
  mask_and_set-framed 0x03 p v hf (omega (arith, bit_and_3 p.flags hf)) (omega (arith, facts.0)),
  rw (message_flags-framed q small) (ap ok facts.1),
  rw (s_flag-framed q small, facts.2),
  rw (message_flags-framed q small) (ap ok {x = q.flags / 16} {y = 0} (omega (arith, facts.0))),
)
  where
    facts :
        (dsiz_write p.flags v < 4)
        × (bit_and (dsiz_write p.flags v) 0x03 ≡ bit_or (p.flags % 4) v)
        × (has_flag (dsiz_write p.flags v) 0x04 ≡ false)
    facts = dsiz_write_facts p.flags v hf hv

    q : Packet
    q = record p { flags = dsiz_write p.flags v }

    small : q.flags < 256
    small = omega (arith, facts.0)

-- On flags of one byte, writing an Sflag below 8 loses DSIZ and the version, and does not clear a flag
-- that is set.
pub set_s_flag_lem :
    (p : Packet) (v : ℕ)
    → p.flags < 256
    → v < 8
    → (m : Message) × (set_s_flag (framed p) v ≡ ok m)
      × (s_flag m ≡ ok (has_flag p.flags 0x04 || has_flag v 0x04))
      × (dsiz m ≡ ok 0)
      × (version m ≡ ok 0)
unfolding set_s_flag dsiz version
set_s_flag_lem p v hf hv = (
  framed q,
  mask_and_set-framed 0x04 p v hf before (omega (arith, facts.0)),
  rw (s_flag-framed q small) (ap ok facts.2),
  rw (message_flags-framed q small) (ap ok facts.1),
  rw (message_flags-framed q small) (ap ok {x = q.flags / 16} {y = 0} (omega (arith, facts.0))),
)
  where
    facts :
        (s_flag_write p.flags v < 8)
        × (bit_and (s_flag_write p.flags v) 0x03 ≡ 0)
        × (has_flag (s_flag_write p.flags v) 0x04 ≡ (has_flag p.flags 0x04 || has_flag v 0x04))
    facts = s_flag_write_facts p.flags v hf hv

    before : bit_and p.flags 0x04 < 256
    before = omega (arith, bit_and_4 p.flags hf)

    q : Packet
    q = record p { flags = s_flag_write p.flags v }

    small : q.flags < 256
    small = omega (arith, facts.0)

-- The exchange flags with bit j written.
abbrev flag_write : ℕ → Bool → ℕ → ℕ
flag_write j v e = if v then bit_or e (2 ^ j) else bit_and e (255 - 2 ^ j)

abbrev flag_after : ℕ → ℕ → Bool → ℕ → Bool
flag_after j k v e = if j == k then v else has_flag e (2 ^ k)

flag_write_facts :
    (j k : ℕ) (v : Bool) (e : ℕ)
    → j < 8
    → k < 8
    → e < 256
    → (flag_write j v e < 256) × (has_flag (flag_write j v e) (2 ^ k) ≡ flag_after j k v e)
unfolding all_below
flag_write_facts j k v e hj hk he =
    let h =
      all_below_sound₂ 8 256 (agrees j) k e
        (all_below_sound 8 (λ j. all_below 8 (λ k. all_below 256 (agrees j k))) j refl hj) hk he in
    picked v h
  where
    agree : ℕ → ℕ → Bool → ℕ → Bool
    agree j k v e =
        ltb (flag_write j v e) 256 && beq (has_flag (flag_write j v e) (2 ^ k)) (flag_after j k v e)

    agrees : ℕ → ℕ → ℕ → Bool
    agrees j k e = agree j k true e && agree j k false e

    both :
        (v : Bool)
        → agree j k v e ≡ true
        → (flag_write j v e < 256) × (has_flag (flag_write j v e) (2 ^ k) ≡ flag_after j k v e)
    both v h = (ground arith, beq→≡ _ _ (ground arith))

    picked :
        (v : Bool)
        → agrees j k e ≡ true
        → (flag_write j v e < 256) × (has_flag (flag_write j v e) (2 ^ k) ≡ flag_after j k v e)
    picked true h = both true (ground arith)
    picked false h = both false (ground arith)

-- In a message whose flags announce the node ids that are there, writing one flag of the exchange
-- header sets it to the value, and keeps the seven others.
pub set_exchange_flag_lem :
    (p : Packet) (j k : ℕ) (v : Bool)
    → p.flags < 256
    → Announces p.flags p.source p.destination
    → p.exchange_bits < 256
    → j < 8
    → k < 8
    → (m : Message) × (set_exchange_flag (2 ^ j) (framed p) v ≡ ok m)
      × (exchange_flag (2 ^ k) m ≡ ok (if j == k then v else has_flag p.exchange_bits (2 ^ k)))
unfolding exchange_flag
set_exchange_flag_lem p j k v small told he hj hk = (
  framed q,
  set_exchange_flag-framed p small told (2 ^ j) v he facts.0,
  rw (exchange_flags-framed q small told facts.0) (ap ok facts.1),
)
  where
    facts :
        (flag_write j v p.exchange_bits < 256)
        × (has_flag (flag_write j v p.exchange_bits) (2 ^ k) ≡ flag_after j k v p.exchange_bits)
    facts = flag_write_facts j k v p.exchange_bits hj hk he

    q : Packet
    q = record p { exchange_bits = flag_write j v p.exchange_bits }
