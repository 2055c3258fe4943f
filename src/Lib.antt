-- ===== src/Lib.antt =====
-- A model of matternode, a Matter node: its message layer and what stands on it.
--
-- A datagram is a Buffer. src/message/MsgCodec.js writes and seals it, Message.js reads and writes its
-- fields, a Session stamps and encrypts what it sends, the SessionManager finds or makes the session of
-- what arrives, and the ExchangeManager hands a session's message to an exchange or to a protocol.
-- A PaseSession negotiates the keys of a secure session over an exchange, and the InteractionModel answers
-- the reads and the commands of a session's peer from its cluster servers. The payloads of both are TLV.
--
-- Prelude -- the names that all share, lists and tests over the native numbers, and Result, the outcome
--   of a call that may throw.
-- Buffer -- Node's Buffer as a list of bytes; reads and writes throw out of range.
-- Cipher -- AES-128-CCM, a parameter with the laws that the code relies on (src/crypto/Crypto.js).
-- MsgCodec -- src/message/MsgCodec.js, with one function per method.
-- Message -- src/message/Message.js. A getter is a function of the message, a setter returns the message
--   after the write. Message/Packet has the fields of a packet as a record of their own, and
--   Message/Privacy the message's encryption and the obfuscation of its header.
-- Session -- src/message/Session.js and src/message/SessionCryptoContext.js. sendMessage returns the
--   session and the message afterwards and the datagram that the transport is asked to send.
-- SessionManager -- src/message/SessionManager.js. A session object is named by its table and place.
-- Exchange, ExchangeManager -- src/message/Exchange.js and src/message/ExchangeManager.js. An event that
--   is emitted is part of a handler's result.
-- Spake -- the outside of the PASE handshake: SPAKE2+, PBKDF2, HKDF, and the interface of the TLV
--   structures that it writes and reads.
-- Pase -- src/protocols/session/PaseSession.js, one function per handler. Pase/Pake has the SPAKE2+
--   messages and the dispatch on the opcode; Pase/Run has two nodes run against each other.
-- SessionProtocol -- src/protocols/session/SessionProtocol.js, which starts the handshake of an exchange.
-- AsyncQueue -- src/async/AsyncQueue.js.
-- StatusReport -- src/protocols/session/StatusReport.js.
-- Tlv -- src/tlv: Tlv/Codec is TlvCodec.ts, Tlv/Writer TlvWriter.ts, Tlv/Reader TlvReader.ts, Tlv/Parser
--   TlvParser.ts. Tlv/Text has the texts and hexadecimal digits of a Buffer. Tlv/Element is the TLV format
--   by itself, with the bytes and the JSON of an element, and Tlv/Element/Templates has a rule for each
--   JSON object that the templates use.
-- Pase/Messages -- the templates of PaseSession.js and what its handlers read of a message, which
--   Pase/Messages/Interface makes the TLV structures that Spake asks for.
-- InteractionModel -- src/protocols/interaction_model and src/clusters: the paths, the answers, the
--   attributes and handlers of the servers (Clusters), the invoke requests (Commands), the read requests
--   (Reads) and the dispatch. A handler's result is what it sends, and the error that ended it.
-- Tests -- runs at concrete values.
--
-- Functions are structural but for TlvReader.decode, whose loop runs on fuel: a round for each byte and one
-- more, which is enough. Numbers are natural, and integers in the TLV code; a field of k bytes holds what is
-- below 256 ^ k, and a write of more throws, as Node's Buffer does. Random numbers, the clock, HKDF, the
-- cipher and SPAKE2+ are arguments. A handler with awaits runs to its end before the next event.
-- Logging, tracing and sockets are left out. The buffer that a constructor is given is not shared with
-- its caller here. What a call has changed before it throws is not kept. A text that is logged
-- is left out too, except where making it throws. The certificates and the shell are not modelled.
pub mod Prelude
pub mod Buffer
pub mod Cipher
pub mod MsgCodec
pub mod Message
pub mod Session
pub mod SessionManager
pub mod Exchange
pub mod ExchangeManager
pub mod Tests
pub mod Spake
pub mod StatusReport
pub mod Pase
pub mod Tlv
pub mod InteractionModel
pub mod AsyncQueue
pub mod SessionProtocol
