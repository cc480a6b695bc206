-- ===== src/Queue/Order.antt =====
-- The order in which a single consumer gets what any number of producers queued.
use mathlib.Core.List.{append-nil, append_assoc}
use autotier.Base.{◌++◌, ◌≡◌, sym, ◌∙◌, ap, List, [], ◌∷◌, none, some}
use autotier.Queue.{ConcurrentQueue, push, pop}

-- What the threads do, in the order in which they get the mutex. The consumer calls `empty` and
-- then `pop`.
pub data Event {ℓ} (A : Type ℓ) : Type ℓ where
  produce : A → Event A
  consume : Event A

module _ {ℓ} {A : Type ℓ} where
  -- The queue left, and what the consumer got, in order.
  pub run : List (Event A) → ConcurrentQueue A → ConcurrentQueue A × List A
  run [] q = (q, [])
  run (produce a ∷ es) q = run es (push a q)
  run (consume ∷ es) q = elim (pop q) [
    | none ↦ run es q
    | some (a, q') ↦ let (last, got) = run es q' in (last, a ∷ got)
  ]

  abbrev pub produced : List (Event A) → List A
  produced [] = []
  produced (produce a ∷ es) = a ∷ produced es
  produced (consume ∷ es) = produced es

  run_fifo_list :
      (es : List (Event A)) (l : List A)
      → (run es (record { queue = l })).1 ++ (run es (record { queue = l })).0.queue
        ≡ l ++ produced es
  unfolding run pop push
  run_fifo_list [] l = sym (append-nil l)
  run_fifo_list (produce a ∷ es) l =
      run_fifo_list es (l ++ (a ∷ [])) ∙ append_assoc l (a ∷ []) (produced es)
  run_fifo_list (consume ∷ es) [] = run_fifo_list es []
  run_fifo_list (consume ∷ es) (x ∷ xs) = ap (◌∷◌ x) (run_fifo_list es xs)

  -- Whatever the interleaving, what was consumed followed by what is left is what was in the
  -- queue followed by what was produced, in order: nothing is lost, repeated or overtaken.
  pub run_fifo :
      (es : List (Event A)) (q : ConcurrentQueue A)
      → (run es q).1 ++ (run es q).0.queue ≡ q.queue ++ produced es
  run_fifo es q = run_fifo_list es q.queue
