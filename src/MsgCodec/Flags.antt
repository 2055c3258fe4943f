-- ===== src/MsgCodec/Flags.antt =====
-- The three flag bytes of src/message/MsgCodec.js: the tests by masks as arithmetic on a byte, and
-- the packed fields.
use matternode.Prelude.{
  ℕ, ◌+◌, ◌*◌, ◌/◌, ◌%◌, ◌<◌, ◌≡◌, refl, bit_and, bit_or, Bool, true, arith, ◌==◌, beq, ==_iff,
  all_below, all_below_sound,
}
use matternode.MsgCodec.{
  has_flag, encode_message_flags, encode_security_flags, encode_exchange_flags,
}

pub beq→≡ : (a b : Bool) → beq a b ≡ true → a ≡ b
beq→≡ a b h = ground arith

-- Two tests that agree on every byte.
pub test_eq :
    (f g : ℕ → Bool) (b : ℕ) → all_below 256 (λ b. beq (f b) (g b)) ≡ true → b < 256 → f b ≡ g b
test_eq f g b h lt = beq→≡ _ _ (all_below_sound 256 _ b h lt)

-- Two numbers that agree on every byte.
pub byte_eq : (f g : ℕ → ℕ) (b : ℕ) → all_below 256 (λ b. f b == g b) ≡ true → b < 256 → f b ≡ g b
byte_eq f g b h lt = (==_iff _ _).0 (all_below_sound 256 _ b h lt)

pub has_flag_1 : (b : ℕ) → b < 256 → has_flag b 0x01 ≡ (b % 2 == 1)
unfolding all_below
has_flag_1 b = test_eq (λ b. has_flag b 0x01) (λ b. b % 2 == 1) b refl

pub has_flag_2 : (b : ℕ) → b < 256 → has_flag b 0x02 ≡ (b / 2 % 2 == 1)
unfolding all_below
has_flag_2 b = test_eq (λ b. has_flag b 0x02) (λ b. b / 2 % 2 == 1) b refl

pub has_flag_4 : (b : ℕ) → b < 256 → has_flag b 0x04 ≡ (b / 4 % 2 == 1)
unfolding all_below
has_flag_4 b = test_eq (λ b. has_flag b 0x04) (λ b. b / 4 % 2 == 1) b refl

pub has_flag_8 : (b : ℕ) → b < 256 → has_flag b 0x08 ≡ (b / 8 % 2 == 1)
unfolding all_below
has_flag_8 b = test_eq (λ b. has_flag b 0x08) (λ b. b / 8 % 2 == 1) b refl

pub has_flag_10 : (b : ℕ) → b < 256 → has_flag b 0x10 ≡ (b / 16 % 2 == 1)
unfolding all_below
has_flag_10 b = test_eq (λ b. has_flag b 0x10) (λ b. b / 16 % 2 == 1) b refl

pub has_flag_20 : (b : ℕ) → b < 256 → has_flag b 0x20 ≡ (b / 32 % 2 == 1)
unfolding all_below
has_flag_20 b = test_eq (λ b. has_flag b 0x20) (λ b. b / 32 % 2 == 1) b refl

pub has_flag_40 : (b : ℕ) → b < 256 → has_flag b 0x40 ≡ (b / 64 % 2 == 1)
unfolding all_below
has_flag_40 b = test_eq (λ b. has_flag b 0x40) (λ b. b / 64 % 2 == 1) b refl

pub has_flag_80 : (b : ℕ) → b < 256 → has_flag b 0x80 ≡ (b / 128 % 2 == 1)
unfolding all_below
has_flag_80 b = test_eq (λ b. has_flag b 0x80) (λ b. b / 128 % 2 == 1) b refl

pub bit_and_3 : (b : ℕ) → b < 256 → bit_and b 0x03 ≡ b % 4
unfolding all_below
bit_and_3 b = byte_eq (λ b. bit_and b 0x03) (λ b. b % 4) b refl

-- Functions of several small fields are compared on every combination.
abbrev agree₃ : ℕ → ℕ → ℕ → (ℕ → ℕ → ℕ → ℕ) → (ℕ → ℕ → ℕ → ℕ) → Bool
agree₃ l m n f g = all_below l (λ a. all_below m (λ b. all_below n (λ c. f a b c == g a b c)))

agree₃_sound :
    (l m n : ℕ) (f g : ℕ → ℕ → ℕ → ℕ) (a b c : ℕ)
    → agree₃ l m n f g ≡ true
    → a < l
    → b < m
    → c < n
    → f a b c ≡ g a b c
agree₃_sound l m n f g a b c h la lb lc =
    (==_iff _ _).0
      (all_below_sound n _ c (all_below_sound m _ b (all_below_sound l _ a h la) lb) lc)

agree₄_sound :
    (k l m n : ℕ) (f g : ℕ → ℕ → ℕ → ℕ → ℕ) (a b c d : ℕ)
    → all_below k (λ a. agree₃ l m n (f a) (g a)) ≡ true
    → a < k
    → b < l
    → c < m
    → d < n
    → f a b c d ≡ g a b c d
agree₄_sound k l m n f g a b c d h la =
    agree₃_sound l m n (f a) (g a) b c d (all_below_sound k _ a h la)

-- The version fills the upper half of the byte, the source flag bit 2 and DSIZ the lowest two bits.
pub encode_message_flags_lem :
    (dsiz s_flag version : ℕ)
    → encode_message_flags dsiz s_flag version ≡ version % 16 * 16 + s_flag % 2 * 4 + dsiz % 4
unfolding encode_message_flags all_below
encode_message_flags_lem dsiz s_flag version =
    agree₃_sound 16 2 4 (λ v s d. bit_or (bit_or (bit_or 0 (v * 16)) (s * 4)) d)
      (λ v s d. v * 16 + s * 4 + d) (version % 16) (s_flag % 2) (dsiz % 4) refl (omega arith)
      (omega arith) (omega arith)

-- P is bit 7, C bit 6, MX bit 5, and the session type the lowest two.
pub encode_security_flags_lem :
    (session_type c_flag p_flag mx_flag : ℕ)
    → encode_security_flags session_type c_flag p_flag mx_flag
      ≡ p_flag % 2 * 128 + c_flag % 2 * 64 + mx_flag % 2 * 32 + session_type % 4
unfolding encode_security_flags all_below
encode_security_flags_lem session_type c_flag p_flag mx_flag =
    agree₄_sound 2 2 2 4
      (λ p c m t. bit_or (bit_or (bit_or (bit_or 0 (p * 128)) (c * 64)) (m * 32)) t)
      (λ p c m t. p * 128 + c * 64 + m * 32 + t) (p_flag % 2) (c_flag % 2) (mx_flag % 2)
      (session_type % 4) refl (omega arith) (omega arith) (omega arith) (omega arith)

-- From bit 4 down: V, SX, R, A and I.
pub encode_exchange_flags_lem :
    (i_flag a_flag r_flag v_flag sx_flag : ℕ)
    → encode_exchange_flags i_flag a_flag r_flag v_flag sx_flag
      ≡ v_flag % 2 * 16 + sx_flag % 2 * 8 + r_flag % 2 * 4 + a_flag % 2 * 2 + i_flag % 2
unfolding encode_exchange_flags all_below
encode_exchange_flags_lem i_flag a_flag r_flag v_flag sx_flag =
    agree₄_sound 2 2 2 2 (λ s r a i. whole (v_flag % 2) s r a i)
      (λ s r a i. sum (v_flag % 2) s r a i) (sx_flag % 2) (r_flag % 2) (a_flag % 2) (i_flag % 2)
      (all_below_sound 2 (λ v. all_below 2 (λ s. agree₃ 2 2 2 (whole v s) (sum v s))) (v_flag % 2)
        refl (omega arith))
      (omega arith) (omega arith) (omega arith) (omega arith)
  where
    whole : ℕ → ℕ → ℕ → ℕ → ℕ → ℕ
    whole v s r a i =
        bit_or (bit_or (bit_or (bit_or (bit_or 0 (v * 16)) (s * 8)) (r * 4)) (a * 2)) i

    sum : ℕ → ℕ → ℕ → ℕ → ℕ → ℕ
    sum v s r a i = v * 16 + s * 8 + r * 4 + a * 2 + i

pub bit_and_4 : (b : ℕ) → b < 256 → bit_and b 0x04 ≡ b / 4 % 2 * 4
unfolding all_below
bit_and_4 b = byte_eq (λ b. bit_and b 0x04) (λ b. b / 4 % 2 * 4) b refl
