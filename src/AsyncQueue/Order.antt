-- ===== src/AsyncQueue/Order.antt =====
-- The order in which src/async/AsyncQueue.js hands out what it is given.
use matternode.Prelude.{
  ℕ, zero, suc, ◌+◌, ◌≡◌, refl, ap, ap₂, sym, ◌∙◌, subst, Option, some, List, [], ◌∷◌, ◌++◌,
  append-nil, append_assoc, arith, if◌then◌else◌,
}
use matternode.AsyncQueue.{
  AsyncQueue, empty_queue, is_nil, create_entry, resolve_first, enqueue, take_first, dequeue,
}

pub data Op (A : Type 0) : Type 0 where
  put : A → Op A
  get : Op A

-- n numbers from s on.
abbrev pub count_up : ℕ → ℕ → List ℕ
count_up s zero = []
count_up s (suc n) = s ∷ count_up (suc s) n

abbrev pub all_some : List ℕ → List (Option ℕ)
all_some [] = []
all_some (n ∷ l) = some n ∷ all_some l

count_up-snoc : (s n : ℕ) → count_up s n ++ (s + n) ∷ [] ≡ count_up s (suc n)
count_up-snoc s zero = ap (λ k. k ∷ []) {x = s + zero} {y = s} (omega arith)
count_up-snoc s (suc n) = ap (◌∷◌ s) (
    ap (λ k. count_up (suc s) n ++ k ∷ []) {x = s + suc n} {y = suc s + n} (omega arith)
    ∙ count_up-snoc (suc s) n)

module _ {A : Type 0} where
  -- The values that are put, and how often one is asked for.
  abbrev pub puts : List (Op A) → List A
  puts [] = []
  puts (put v ∷ ops) = v ∷ puts ops
  puts (get ∷ ops) = puts ops

  abbrev pub gets : List (Op A) → ℕ
  gets [] = 0
  gets (put v ∷ ops) = gets ops
  gets (get ∷ ops) = suc (gets ops)

  -- The values with their numbers from s on.
  abbrev pub numbered : ℕ → List A → List (ℕ × A)
  numbered s [] = []
  numbered s (v ∷ vs) = (s, v) ∷ numbered (suc s) vs

  -- The calls in order: the queue at the end, and the promises that were returned.
  unfoldable pub run : AsyncQueue A → List (Op A) → AsyncQueue A × List (Option ℕ)
  run q [] = (q, [])
  run q (put v ∷ ops) = run (enqueue q v) ops
  run q (get ∷ ops) = let (q', p) = dequeue q in let (q'', ps) = run q' ops in (q'', p ∷ ps)

  -- e values were put and d asked for: what waits has the numbers from there to the last one made.
  record Counts (q : AsyncQueue A) (e d a b : ℕ) : Type 0 where
    resolvers : q.resolvers ≡ count_up e a
    promises : q.promises ≡ count_up d b
    ends_a : e + a ≡ q.made
    ends_b : d + b ≡ q.made

  create_entry-Counts :
      (q : AsyncQueue A) (e d a b : ℕ)
      → Counts q e d a b
      → Counts (create_entry q) e d (suc a) (suc b)
  unfolding create_entry
  create_entry-Counts q e d a b c = record {
    resolvers = ap₂ (λ l k. l ++ k ∷ []) c.resolvers (sym c.ends_a) ∙ count_up-snoc e a;
    promises = ap₂ (λ l k. l ++ k ∷ []) c.promises (sym c.ends_b) ∙ count_up-snoc d b;
    ends_a = omega (arith, c.ends_a);
    ends_b = omega (arith, c.ends_b);
  }

  resolve_first-Counts :
      (q : AsyncQueue A) (v : A) (e d a b : ℕ)
      → Counts q e d (suc a) b
      → Counts (resolve_first q v) (suc e) d a b
        × ((resolve_first q v).settled ≡ q.settled ++ (e, v) ∷ [])
  unfolding resolve_first
  resolve_first-Counts q v e d a b c =
      rw (c.resolvers, resolve_first)
        (
          record {
            resolvers = refl;
            promises = c.promises;
            ends_a = omega (arith, c.ends_a);
            ends_b = c.ends_b;
          },
          refl,
        )

  take_first-Counts :
      (q : AsyncQueue A) (e d a b : ℕ)
      → Counts q e d a (suc b)
      → Counts (take_first q).0 e (suc d) a b
        × ((take_first q).1 ≡ some d)
        × ((take_first q).0.settled ≡ q.settled)
  unfolding take_first
  take_first-Counts q e d a b c =
      rw (c.promises, take_first)
        (
          record {
            resolvers = c.resolvers;
            promises = refl;
            ends_a = c.ends_a;
            ends_b = omega (arith, c.ends_b);
          },
          refl,
          refl,
        )

  -- A put resolves the promise with its own number.
  enqueue-Counts :
      (q : AsyncQueue A) (v : A) (e d a b : ℕ)
      → Counts q e d a b
      → (a' b' : ℕ) × Counts (enqueue q v) (suc e) d a' b'
        × ((enqueue q v).settled ≡ q.settled ++ (e, v) ∷ [])
  unfolding enqueue create_entry
  enqueue-Counts q v e d zero b c =
      let (counts, settled) =
        resolve_first-Counts (create_entry q) v e d 0 (suc b) (create_entry-Counts q e d 0 b c) in
      let r =
        subst
          (λ n.
            let q' = resolve_first (if n then create_entry q else q) v in
            Counts q' (suc e) d 0 (suc b) × (q'.settled ≡ q.settled ++ (e, v) ∷ []))
          (sym (ap is_nil c.resolvers)) (counts, settled) in
      (0, suc b, r.0, r.1)
  enqueue-Counts q v e d (suc a) b c =
      let r =
        subst
          (λ n.
            let q' = resolve_first (if n then create_entry q else q) v in
            Counts q' (suc e) d a b × (q'.settled ≡ q.settled ++ (e, v) ∷ []))
          (sym (ap is_nil c.resolvers)) (resolve_first-Counts q v e d a b c) in
      (a, b, r.0, r.1)

  -- A get returns the promise with its own number.
  dequeue-Counts :
      (q : AsyncQueue A) (e d a b : ℕ)
      → Counts q e d a b
      → (a' b' : ℕ) × Counts (dequeue q).0 e (suc d) a' b'
        × ((dequeue q).1 ≡ some d)
        × ((dequeue q).0.settled ≡ q.settled)
  unfolding dequeue create_entry
  dequeue-Counts q e d a zero c =
      let r =
        subst
          (λ n.
            let t = take_first (if n then create_entry q else q) in
            Counts t.0 e (suc d) (suc a) 0 × (t.1 ≡ some d) × (t.0.settled ≡ q.settled))
          (sym (ap is_nil c.promises))
          (take_first-Counts (create_entry q) e d (suc a) 0 (create_entry-Counts q e d a 0 c)) in
      (suc a, 0, r.0, r.1, r.2)
  dequeue-Counts q e d a (suc b) c =
      let r =
        subst
          (λ n.
            let t = take_first (if n then create_entry q else q) in
            Counts t.0 e (suc d) a b × (t.1 ≡ some d) × (t.0.settled ≡ q.settled))
          (sym (ap is_nil c.promises)) (take_first-Counts q e d a b c) in
      (a, b, r.0, r.1, r.2)

  run-Counts :
      (ops : List (Op A)) (q : AsyncQueue A) (e d a b : ℕ)
      → Counts q e d a b
      → ((run q ops).0.settled ≡ q.settled ++ numbered e (puts ops))
        × ((run q ops).1 ≡ all_some (count_up d (gets ops)))
  unfolding run
  run-Counts [] q e d a b c = (sym (append-nil q.settled), refl)
  run-Counts (put v ∷ ops) q e d a b c =
      let (a', b', c', settled) = enqueue-Counts q v e d a b c in
      let (all, got) = run-Counts ops (enqueue q v) (suc e) d a' b' c' in
      (
        all
            ∙ ap (λ l. l ++ numbered (suc e) (puts ops)) settled
            ∙ append_assoc q.settled ((e, v) ∷ []) (numbered (suc e) (puts ops)),
        got,
      )
  run-Counts (get ∷ ops) q e d a b c =
      let (a', b', c', p, settled) = dequeue-Counts q e d a b c in
      let (all, got) = run-Counts ops (dequeue q).0 e (suc d) a' b' c' in
      (all ∙ ap (λ l. l ++ numbered e (puts ops)) settled, ap₂ (◌∷◌) p got)

  -- Whatever the order of the calls, the n-th put resolves promise n and the n-th get returns promise n:
  -- values come out in the order in which they went in, also where the get was first.
  pub run-numbered :
      (ops : List (Op A))
      → ((run empty_queue ops).0.settled ≡ numbered 0 (puts ops))
        × ((run empty_queue ops).1 ≡ all_some (count_up 0 (gets ops)))
  run-numbered ops =
      run-Counts ops empty_queue 0 0 0 0
        record { resolvers = refl; promises = refl; ends_a = refl; ends_b = refl }
