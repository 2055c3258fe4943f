-- ===== src/ExchangeManager/Distinct.antt =====
-- Tables of exchanges whose numbers differ, for src/message/ExchangeManager.js.
use matternode.Prelude.{
  ℕ, zero, suc, ◌<◌, ◌≡◌, ◌≢◌, refl, ap, subst, true, Option, none, some, List, [], ◌∷◌, ◌++◌,
  get_elem?, set, All, sym, ◌∙◌,
}
use matternode.Exchange.{Exchange}
use matternode.ExchangeManager.{splice_one}

-- The exchanges that this side initiates have numbers that were given, and no number twice.
abbrev pub Apart : Exchange → Exchange → Type 0
Apart a b = a.is_initiator ≡ true → b.is_initiator ≡ true → a.exchange_id ≢ b.exchange_id

abbrev pub Distinct : List Exchange → Type 0
Distinct [] = Unit {0}
Distinct (ex ∷ l) = All (Apart ex) l × Distinct l

abbrev pub Numbered : ℕ → Exchange → Type 0
Numbered next ex = ex.is_initiator ≡ true → ex.exchange_id < next

pub All-snoc {ℓ} :
    {A : Type ℓ} (P : A → Type 0) (l : List A) (a : A) → All P l → P a → All P (l ++ a ∷ [])
All-snoc P [] a h p = (p, tt)
All-snoc P (x ∷ l) a h p = (h.0, All-snoc P l a h.1 p)

pub All-map {ℓ} :
    {A : Type ℓ} (P Q : A → Type 0) (l : List A) → ((a : A) → P a → Q a) → All P l → All Q l
All-map P Q [] f h = tt
All-map P Q (x ∷ l) f h = (f x h.0, All-map P Q l f h.1)

-- One more exchange, apart from each.
pub Distinct-snoc :
    (l : List Exchange) (ex : Exchange)
    → Distinct l
    → All (λ x. Apart x ex) l
    → Distinct (l ++ ex ∷ [])
Distinct-snoc [] ex h a = (tt, tt)
Distinct-snoc (x ∷ l) ex h a = (All-snoc (Apart x) l ex h.0 a.0, Distinct-snoc l ex h.1 a.1)

-- The same exchange with another acknowledgement.
abbrev pub acknowledging : Exchange → ℕ → Exchange
acknowledging ex counter = record ex { ack_counter = counter }

pub head_eq : (x ex : Exchange) (l : List Exchange) → get_elem? (x ∷ l) 0 ≡ some ex → x ≡ ex
head_eq x ex l there = cc

module _ (counter : ℕ) where
  pub All-acknowledging :
      (P : Exchange → Type 0)
      → ((x : Exchange) → P x → P (acknowledging x counter))
      → (l : List Exchange) (i : ℕ) (ex : Exchange) → get_elem? l i ≡ some ex
      → All P l
      → All P (set l i (acknowledging ex counter))
  All-acknowledging P keeps [] i ex there h = tt
  All-acknowledging P keeps (x ∷ l) zero ex there h =
      (subst (λ y. P (acknowledging y counter)) (head_eq x ex l there) (keeps x h.0), h.1)
  All-acknowledging P keeps (x ∷ l) (suc i) ex there h =
      (h.0, All-acknowledging P keeps l i ex there h.1)

  pub Distinct-acknowledging :
      (l : List Exchange) (i : ℕ) (ex : Exchange)
      → get_elem? l i ≡ some ex
      → Distinct l
      → Distinct (set l i (acknowledging ex counter))
  Distinct-acknowledging [] i ex there h = tt
  Distinct-acknowledging (x ∷ l) zero ex there h =
      (subst (λ y. All (Apart (acknowledging y counter)) l) (head_eq x ex l there) h.0, h.1)
  Distinct-acknowledging (x ∷ l) (suc i) ex there h = (
    All-acknowledging (Apart x) (λ y a. a) l i ex there h.0,
    Distinct-acknowledging l i ex there h.1,
  )

pub All-splice_one :
    (P : Exchange → Type 0) (o : Option ℕ) (l : List Exchange) → All P l → All P (splice_one o l)
unfolding splice_one
All-splice_one P none [] h = tt
All-splice_one P (some i) [] h = tt
All-splice_one P none (x ∷ []) h = tt
All-splice_one P none (x ∷ y ∷ l) h = (h.0, All-splice_one P none (y ∷ l) h.1)
All-splice_one P (some zero) (x ∷ l) h = h.1
All-splice_one P (some (suc i)) (x ∷ l) h = (h.0, All-splice_one P (some i) l h.1)

pub Distinct-splice_one :
    (o : Option ℕ) (l : List Exchange) → Distinct l → Distinct (splice_one o l)
unfolding splice_one
Distinct-splice_one none [] h = tt
Distinct-splice_one (some i) [] h = tt
Distinct-splice_one none (x ∷ []) h = tt
Distinct-splice_one none (x ∷ y ∷ l) h =
    (All-splice_one (Apart x) none (y ∷ l) h.0, Distinct-splice_one none (y ∷ l) h.1)
Distinct-splice_one (some zero) (x ∷ l) h = h.1
Distinct-splice_one (some (suc i)) (x ∷ l) h =
    (All-splice_one (Apart x) (some i) l h.0, Distinct-splice_one (some i) l h.1)

pub All-get_elem? :
    (P : Exchange → Type 0) (l : List Exchange) (i : ℕ) (ex : Exchange)
    → get_elem? l i ≡ some ex
    → All P l
    → P ex
All-get_elem? P [] i ex there h = cc
All-get_elem? P (x ∷ l) zero ex there h = subst P (head_eq x ex l there) h.0
All-get_elem? P (x ∷ l) (suc i) ex there h = All-get_elem? P l i ex there h.1

-- Two exchanges with the same number on this side stand at the same place.
pub Distinct-place :
    (l : List Exchange) (i j : ℕ) (a b : Exchange)
    → Distinct l
    → get_elem? l i ≡ some a
    → get_elem? l j ≡ some b
    → a.is_initiator ≡ true
    → b.is_initiator ≡ true
    → a.exchange_id ≡ b.exchange_id
    → i ≡ j
Distinct-place [] i j a b h at_i at_j own own' same = cc
Distinct-place (x ∷ l) zero zero a b h at_i at_j own own' same = refl
Distinct-place (x ∷ l) zero (suc j) a b h at_i at_j own own' same = absurd (
    All-get_elem? (Apart x) l j b at_j h.0 (ap (λ e. e.is_initiator) (head_eq x a l at_i) ∙ own)
      own' (ap (λ e. e.exchange_id) (head_eq x a l at_i) ∙ same))
Distinct-place (x ∷ l) (suc i) zero a b h at_i at_j own own' same = absurd (
    All-get_elem? (Apart x) l i a at_i h.0 (ap (λ e. e.is_initiator) (head_eq x b l at_j) ∙ own')
      own (ap (λ e. e.exchange_id) (head_eq x b l at_j) ∙ sym same))
Distinct-place (x ∷ l) (suc i) (suc j) a b h at_i at_j own own' same =
    ap suc (Distinct-place l i j a b h.1 at_i at_j own own' same)
