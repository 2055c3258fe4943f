-- ===== src/SessionManager/Tables.antt =====
-- Lookups in the session tables of src/message/SessionManager.js.
use matternode.Prelude.{
  ℕ, zero, suc, ◌≡◌, ◌≢◌, ap, refl, Bool, true, false, ◌&&◌, ◌⊎◌, inl, inr, Option, none, some,
  List, [], ◌∷◌, ◌++◌, get_elem?, set, take, length, All, arith, ◌==◌, Bool-cases, ok,
}
use matternode.Session.{Session, PeerInfo}
use matternode.SessionManager.{find_secure, node_matches, peer_matches, find_unsecure}

-- The search finds the first session of the table with this peer id, and nothing if there is none.
pub find_secure-first :
    (id : ℕ) (l : List Session)
    → ((find_secure id l ≡ none) × All (λ s. s.peer_session_id ≢ id) l)
      ⊎ ((i : ℕ) × (s : Session) × (find_secure id l ≡ some i)
          × (get_elem? l i ≡ some s)
          × (s.peer_session_id ≡ id)
          × All (λ s. s.peer_session_id ≢ id) (take i l))
unfolding find_secure
find_secure-first id [] = inl (refl, tt)
find_secure-first id (s ∷ rest) = elim (Bool-cases (s.peer_session_id == id)) [
  | inl same ↦ inr (0, s, rw (same, find_secure), refl, ground arith, tt)
  | inr other ↦ elim (find_secure-first id rest) [
    | inl (e, h) ↦ inl (rw (other, e, find_secure), (ground arith, h))
    | inr (i, t, e, g, h, before) ↦
        inr (suc i, t, rw (other, e, find_secure), g, h, (ground arith, before))
  ]
]

-- Does the session answer to this peer and node?
abbrev pub Answers : PeerInfo → ℕ → Session → Type 0
Answers peer node s =
    (info : PeerInfo) × (s.peer_info ≡ some info)
    × ((peer_matches info peer && node_matches s.peer_node_id node) ≡ true)

abbrev pub HasPeer : Session → Type 0
HasPeer s = (info : PeerInfo) × (s.peer_info ≡ some info)

-- Where every session knows an address the search does not throw, and a session that it finds answers
-- to the peer and the node.
pub find_unsecure-total :
    (peer : PeerInfo) (node : ℕ) (l : List Session)
    → All HasPeer l
    → (find_unsecure peer node l ≡ ok none)
      ⊎ ((i : ℕ) × (s : Session) × (find_unsecure peer node l ≡ ok (some i))
          × (get_elem? l i ≡ some s)
          × Answers peer node s)
unfolding find_unsecure
find_unsecure-total peer node [] h = inl refl
find_unsecure-total peer node (s ∷ rest) h =
    elim (Bool-cases (peer_matches h.0.0 peer && node_matches s.peer_node_id node)) [
      | inl same ↦ inr (0, s, rw (h.0.1, same), refl, (h.0.0, h.0.1, same))
      | inr other ↦ elim (find_unsecure-total peer node rest h.1) [
        | inl e ↦ inl (rw (h.0.1, other, e))
        | inr (i, t, e, g, a) ↦ inr (suc i, t, rw (h.0.1, other, e), g, a)
      ]
    ]

-- The peer's address and port, and its node id or none yet.
abbrev pub IsFor : PeerInfo → ℕ → Session → Type 0
IsFor peer node s =
    (info : PeerInfo) × (s.peer_info ≡ some info)
    × (info.address ≡ peer.address)
    × (info.port ≡ peer.port)
    × ((s.peer_node_id ≡ none) ⊎ (s.peer_node_id ≡ some node))

node_of : (o : Option ℕ) (node : ℕ) → node_matches o node ≡ true → (o ≡ none) ⊎ (o ≡ some node)
node_of none node h = inl refl
node_of (some n) node h = inr (ap some (ground arith))

Answers-IsFor : (peer : PeerInfo) (node : ℕ) (s : Session) → Answers peer node s → IsFor peer node s
Answers-IsFor peer node s (info, has, same) =
    (info, has, ground arith, ground arith, node_of s.peer_node_id node (ground arith))

not-IsFor :
    (peer info : PeerInfo) (node : ℕ) (s : Session)
    → s.peer_info ≡ some info
    → (peer_matches info peer && node_matches s.peer_node_id node) ≡ false
    → ¬ (IsFor peer node s)
not-IsFor peer info node s has other (info', has', address, port, inl unknown) =
    ground (arith, has, has')
not-IsFor peer info node s has other (info', has', address, port, inr known) =
    ground (arith, has, has')

-- Where every session knows an address, the search finds the first session of the table with the peer's
-- address and port whose node id is this one or is not known yet, and nothing if there is none.
pub find_unsecure-first :
    (peer : PeerInfo) (node : ℕ) (l : List Session)
    → All HasPeer l
    → ((find_unsecure peer node l ≡ ok none) × All (λ s. ¬ (IsFor peer node s)) l)
      ⊎ ((i : ℕ) × (s : Session) × (find_unsecure peer node l ≡ ok (some i))
          × (get_elem? l i ≡ some s)
          × IsFor peer node s
          × All (λ s. ¬ (IsFor peer node s)) (take i l))
unfolding find_unsecure
find_unsecure-first peer node [] h = inl (refl, tt)
find_unsecure-first peer node (s ∷ rest) h =
    elim (Bool-cases (peer_matches h.0.0 peer && node_matches s.peer_node_id node)) [
      | inl same ↦
          inr (0, s, rw (h.0.1, same), refl, Answers-IsFor peer node s (h.0.0, h.0.1, same), tt)
      | inr other ↦
          (let skipped = not-IsFor peer h.0.0 node s h.0.1 other in
            elim (find_unsecure-first peer node rest h.1) [
              | inl (e, none_for) ↦ inl (rw (h.0.1, other, e), (skipped, none_for))
              | inr (i, t, e, g, a, before) ↦
                  inr (suc i, t, rw (h.0.1, other, e), g, a, (skipped, before))
            ])
    ]

pub HasPeer-append :
    (l : List Session) (s : Session) → All HasPeer l → HasPeer s → All HasPeer (l ++ s ∷ [])
HasPeer-append [] s h p = (p, tt)
HasPeer-append (t ∷ l) s h p = (h.0, HasPeer-append l s h.1 p)

pub HasPeer-set :
    (l : List Session) (i : ℕ) (s : Session) → All HasPeer l → HasPeer s → All HasPeer (set l i s)
HasPeer-set [] i s h p = tt
HasPeer-set (t ∷ l) zero s h p = (p, h.1)
HasPeer-set (t ∷ l) (suc i) s h p = (h.0, HasPeer-set l i s h.1 p)

-- A search that goes past the first session.
module _ (peer : PeerInfo) (node : ℕ) (s : Session) (l : List Session) (h : HasPeer s)
    (hr : All HasPeer l) where
  abbrev first_matches : Bool
  first_matches = peer_matches h.0 peer && node_matches s.peer_node_id node

  pub find_unsecure-hit : first_matches ≡ true → find_unsecure peer node (s ∷ l) ≡ ok (some 0)
  unfolding find_unsecure
  find_unsecure-hit same = rw (h.1, same)

  pub find_unsecure-past :
      (o : Option ℕ)
      → first_matches ≡ false
      → find_unsecure peer node l ≡ ok o
      → find_unsecure peer node (s ∷ l) ≡ ok (elim o [ none ↦ none | some i ↦ some (suc i) ])
  unfolding find_unsecure
  find_unsecure-past o other e = rw (h.1, other, e)

  pub find_unsecure-none :
      find_unsecure peer node (s ∷ l) ≡ ok none
      → (first_matches ≡ false) × (find_unsecure peer node l ≡ ok none)
  find_unsecure-none e = elim (Bool-cases first_matches) [
    | inl same ↦ cc (find_unsecure-hit same)
    | inr other ↦ (other, rest_none other)
  ]
    where
      rest_none : first_matches ≡ false → find_unsecure peer node l ≡ ok none
      rest_none other = elim (find_unsecure-total peer node l hr) [
        | inl none_found ↦ none_found
        | inr (i, t, found, g, a) ↦ cc (find_unsecure-past (some i) other found)
      ]

  pub find_unsecure-suc :
      (i : ℕ)
      → find_unsecure peer node (s ∷ l) ≡ ok (some (suc i))
      → (first_matches ≡ false) × (find_unsecure peer node l ≡ ok (some i))
  find_unsecure-suc i e = elim (Bool-cases first_matches) [
    | inl same ↦ cc (find_unsecure-hit same)
    | inr other ↦ (other, found_there other)
  ]
    where
      found_there : first_matches ≡ false → find_unsecure peer node l ≡ ok (some i)
      found_there other = elim (find_unsecure-total peer node l hr) [
        | inl none_found ↦ cc (find_unsecure-past none other none_found)
        | inr (j, t, found, g, a) ↦ cc (find_unsecure-past (some j) other found)
      ]

-- A new last session that answers is found where no other does.
pub find_unsecure-append :
    (peer : PeerInfo) (node : ℕ) (l : List Session) (s : Session)
    → All HasPeer l
    → find_unsecure peer node l ≡ ok none
    → Answers peer node s
    → find_unsecure peer node (l ++ s ∷ []) ≡ ok (some (length l))
find_unsecure-append peer node [] s h e a = find_unsecure-hit peer node s [] (a.0, a.1) tt a.2
find_unsecure-append peer node (t ∷ l) s h e a =
    let (other, e') = find_unsecure-none peer node t l h.0 h.1 e in
    find_unsecure-past peer node t (l ++ s ∷ []) h.0 (HasPeer-append l s h.1 (a.0, a.1))
      (some (length l)) other (find_unsecure-append peer node l s h.1 e' a)

nothing : (peer : PeerInfo) (node i : ℕ) {A : Type 0} → find_unsecure peer node [] ≡ ok (some i) → A
unfolding find_unsecure
nothing peer node i e = cc

-- A session that was found, in a state that still answers, is found again.
pub find_unsecure-set :
    (peer : PeerInfo) (node : ℕ) (l : List Session) (i : ℕ) (s : Session)
    → All HasPeer l
    → find_unsecure peer node l ≡ ok (some i)
    → Answers peer node s
    → find_unsecure peer node (set l i s) ≡ ok (some i)
find_unsecure-set peer node [] i s h e a = nothing peer node i e
find_unsecure-set peer node (t ∷ l) zero s h e a =
    find_unsecure-hit peer node s l (a.0, a.1) h.1 a.2
find_unsecure-set peer node (t ∷ l) (suc i) s h e a =
    let (other, e') = find_unsecure-suc peer node t l h.0 h.1 i e in
    find_unsecure-past peer node t (set l i s) h.0 (HasPeer-set l i s h.1 (a.0, a.1)) (some i) other
      (find_unsecure-set peer node l i s h.1 e' a)
