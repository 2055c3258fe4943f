-- ===== src/Message/Parse.antt =====
-- What the codec of src/message/MsgCodec.js writes, the accessors of src/message/Message.js read.
use matternode.Prelude.{
  ℕ, ◌+◌, ◌<◌, ◌≡◌, refl, bit_and, Bool, true, false, Option, none, some, [], ◌++◌, ◌==◌, drop,
  if◌then◌else◌, ok,
}
use matternode.Buffer.{Buffer, le_bytes, read_le}
use matternode.Buffer.Laws.{read_le-bytes}
use matternode.MsgCodec.{has_flag, node_id_any}
use matternode.MsgCodec.Layout.{Fits, header_bytes}
use matternode.Message.{
  Message, of_buffer, message_flags, session_id, security_flags, message_counter, s_flag, dsiz,
  source_node_id, destination_offset, destination_node_id, payload_offset, payload,
}

abbrev pub is_given : Option ℕ → Bool
is_given none = false
is_given (some v) = true

abbrev pub or_any : Option ℕ → ℕ
or_any none = node_id_any
or_any (some v) = v

-- The message flags tell which node ids follow. A destination is a node id, not a group.
pub record Announces (flags : ℕ) (src dst : Option ℕ) : Type 0 where
  pub source : has_flag flags 0x04 ≡ is_given src
  pub destination : bit_and flags 0x03 ≡ (if is_given dst then 1 else 0)

-- What the accessors of the message header give, and where the payload starts.
pub record ReadsHeader (m : Message) (f c s n : ℕ) (src dst : Option ℕ) (rest : Buffer)
    : Type 0 where
  pub flags : message_flags m ≡ ok f
  pub security : security_flags m ≡ ok c
  pub session : session_id m ≡ ok s
  pub counter : message_counter m ≡ ok n
  pub source : source_node_id m ≡ ok (or_any src)
  pub destination : destination_node_id m ≡ ok (or_any dst)
  pub offset :
      payload_offset m ≡ ok (8 + (if is_given src then 8 else 0) + (if is_given dst then 8 else 0))
  pub behind : payload m ≡ ok rest

module _ (f c s n : ℕ) (src dst : Option ℕ) (rest : Buffer) (enc : Option Buffer) (hf : f < 256)
    (hc : c < 256) (hs : s < 65536) (hn : n < 4294967296) (fs : Fits 8 src) (fd : Fits 8 dst)
    (told : Announces f src dst) where
  abbrev pub parsed : Message
  parsed = of_buffer (header_bytes f c s n src dst ++ rest) enc

  message_flags-parsed : message_flags parsed ≡ ok f
  unfolding message_flags of_buffer header_bytes
  message_flags-parsed = read_le-bytes 1 f 0 [] _ hf refl

  session_id-parsed : session_id parsed ≡ ok s
  unfolding session_id of_buffer header_bytes
  session_id-parsed = read_le-bytes 2 s 1 (le_bytes 1 f) _ hs refl

  security_flags-parsed : security_flags parsed ≡ ok c
  unfolding security_flags of_buffer header_bytes
  security_flags-parsed = read_le-bytes 1 c 3 (le_bytes 1 f ++ le_bytes 2 s) _ hc refl

  message_counter-parsed : message_counter parsed ≡ ok n
  unfolding message_counter of_buffer header_bytes
  message_counter-parsed =
      read_le-bytes 4 n 4 (le_bytes 1 f ++ (le_bytes 2 s ++ le_bytes 1 c)) _ hn refl

  s_flag-parsed : s_flag parsed ≡ ok (is_given src)
  unfolding s_flag
  s_flag-parsed = rw (message_flags-parsed, told.source)

  dsiz-parsed : dsiz parsed ≡ ok (if is_given dst then 1 else 0)
  unfolding dsiz
  dsiz-parsed = rw (message_flags-parsed, told.destination)

  destination_offset-parsed : destination_offset parsed ≡ ok (8 + (if is_given src then 8 else 0))
  unfolding destination_offset
  destination_offset-parsed = rw s_flag-parsed

  -- The payload starts behind the node ids that are there.
  payload_offset-parsed :
      payload_offset parsed
      ≡ ok (8 + (if is_given src then 8 else 0) + (if is_given dst then 8 else 0))
  unfolding payload_offset
  payload_offset-parsed = rw (destination_offset-parsed, dsiz-parsed) (sizes dst)
    where
      sizes :
          (d : Option ℕ)
          → ok (
              8
              + (if is_given src then 8 else 0)
              + (if (if is_given d then 1 else 0) == 1
                  then 8
                  else if (if is_given d then 1 else 0) == 2
                  then 2
                  else 0))
            ≡ ok (8 + (if is_given src then 8 else 0) + (if is_given d then 8 else 0))
      sizes none = refl
      sizes (some v) = refl

  source_node_id-parsed : source_node_id parsed ≡ ok (or_any src)
  unfolding source_node_id of_buffer header_bytes
  source_node_id-parsed = rw s_flag-parsed (read src fs)
    where
      read :
          (o : Option ℕ)
          → Fits 8 o
          → (if is_given o
              then read_le 8 (of_buffer (header_bytes f c s n o dst ++ rest) enc).buffer 8
              else ok node_id_any)
            ≡ ok (or_any o)
      read none h = refl
      read (some v) h =
          read_le-bytes 8 v 8 (le_bytes 1 f ++ (le_bytes 2 s ++ (le_bytes 1 c ++ le_bytes 4 n))) _ h
            refl

  destination_node_id-parsed : destination_node_id parsed ≡ ok (or_any dst)
  unfolding destination_node_id of_buffer header_bytes
  destination_node_id-parsed = rw (dsiz-parsed, destination_offset-parsed) (read src dst fd)
    where
      read :
          (o d : Option ℕ)
          → Fits 8 d
          → (if (if is_given d then 1 else 0) == 1
              then read_le 8
                  (of_buffer (header_bytes f c s n o d ++ rest) enc).buffer
                  (8 + (if is_given o then 8 else 0))
              else ok node_id_any)
            ≡ ok (or_any d)
      read o none h = refl
      read none (some v) h =
          read_le-bytes 8 v 8 (le_bytes 1 f ++ (le_bytes 2 s ++ (le_bytes 1 c ++ le_bytes 4 n))) _ h
            refl
      read (some u) (some v) h =
          read_le-bytes 8 v 16
            (le_bytes 1 f ++ (le_bytes 2 s ++ (le_bytes 1 c ++ (le_bytes 4 n ++ le_bytes 8 u)))) _ h
            refl

  payload-parsed : payload parsed ≡ ok rest
  unfolding payload of_buffer header_bytes
  payload-parsed = rw payload_offset-parsed (cut src dst)
    where
      cut :
          (o d : Option ℕ)
          → ok (
              drop
                (8 + (if is_given o then 8 else 0) + (if is_given d then 8 else 0))
                (of_buffer (header_bytes f c s n o d ++ rest) enc).buffer)
            ≡ ok rest
      cut none none = refl
      cut none (some v) = refl
      cut (some u) none = refl
      cut (some u) (some v) = refl

  pub header_bytes-ReadsHeader : ReadsHeader parsed f c s n src dst rest
  header_bytes-ReadsHeader = record {
    flags = message_flags-parsed;
    security = security_flags-parsed;
    session = session_id-parsed;
    counter = message_counter-parsed;
    source = source_node_id-parsed;
    destination = destination_node_id-parsed;
    offset = payload_offset-parsed;
    behind = payload-parsed;
  }
