-- ===== src/TagQueue/Free.antt =====
-- `queue_free` of Lab3/queue.c.
use model_lib.Prelude.{
  ℕ, zero, suc, ◌<◌, ◌≤◌, ◌≡◌, refl, ap, ◌∙◌, ◌≢◌, true, false, Option, none, some, List, [], ◌∷◌,
  ◌==◌, arith, length,
}
use model_lib.TagQueue.{Elem, Elems, TagQueue, write, load, free, free_from, queue_free}
use model_lib.TagQueue.Fifo.{
  Entry, last, absent, distinct, Linked, link, IsFifo, Linked-write, absent-last, write_self,
  write_other,
}

-- No address of the entries holds an element.
pub data AllFreed (h : Elems) : List Entry → Type 0 where
  no_entry : AllFreed h []
  freed : {p t : ℕ} {es : List Entry} → h p ≡ none → AllFreed h es → AllFreed h ((p, t) ∷ es)

-- A run that frees the entries, and nothing else.
pub record Frees (h : Elems) (o : Option Elems) (es : List Entry) : Type 0 where
  pub left : Elems
  pub runs : o ≡ some left
  pub gone : AllFreed left es
  pub others : (a : ℕ) → absent a es ≡ true → left a ≡ h a

free-some : (h : Elems) (p : ℕ) (e : Elem) → p ≢ 0 → h p ≡ some e → free h p ≡ some (write h p none)
unfolding free load
free-some h p e nz at = (let other : (p == 0) ≡ false = ground arith in rw (other, at) refl)

free_from-last : (fuel : ℕ) (h : Elems) (p : ℕ) → free_from (suc fuel) h p p ≡ free h p
unfolding free_from
free_from-last fuel h p = (let same : (p == p) ≡ true = ground arith in rw same refl)

free_from-next :
    (fuel : ℕ) (h : Elems) (tail p : ℕ) (e : Elem)
    → p ≢ tail
    → p ≢ 0
    → h p ≡ some e
    → free_from (suc fuel) h tail p ≡ free_from fuel (write h p none) tail e.next
unfolding free_from load
free_from-next fuel h tail p e differ nz at =
    (let other : (p == tail) ≡ false = ground arith in
      let some_p : (p == 0) ≡ false = ground arith in
      rw (other, some_p, at, free-some h p e nz at) refl)

free_from-Frees :
    (fuel : ℕ) (es : List Entry) (h : Elems) (p t : ℕ)
    → length es < fuel
    → Linked h ((p, t) ∷ es)
    → distinct ((p, t) ∷ es) ≡ true
    → Frees h (free_from fuel h (last ((p, t) ∷ es)) p) ((p, t) ∷ es)
free_from-Frees zero es h p t few l d = absurd (omega (arith, few))
free_from-Frees (suc fuel) [] h p t few (link _ _ _ nz at l) d = record {
  left = write h p none;
  runs = free_from-last fuel h p ∙ free-some h p _ nz at;
  gone = freed (write_self h p none) no_entry;
  others = λ a out. write_other h p a none (ground arith);
}
free_from-Frees (suc fuel) ((q, s) ∷ es) h p t few (link _ _ _ nz at l) d =
    (let f =
        free_from-Frees fuel es (write h p none) q s (omega (arith, few))
          (Linked-write p none ((q, s) ∷ es) (ground arith) l) (ground arith) in
      record {
        left = f.left;
        runs =
            free_from-next fuel h (last ((q, s) ∷ es)) p _ (absent-last p (q, s) es (ground arith))
              nz at
            ∙ f.runs;
        gone = freed (f.others p (ground arith) ∙ write_self h p none) f.gone;
        others = λ a out. f.others a (ground arith) ∙ write_other h p a none (ground arith);
      })

queue_free-none :
    (fuel : ℕ) (q : TagQueue) → q.head ≡ 0 → q.tail ≡ 0 → queue_free fuel q ≡ some q.elem
unfolding queue_free
queue_free-none fuel q a b =
    (let no_head : (q.head == 0) ≡ true = ground arith in
      let no_tail : (q.tail == 0) ≡ true = ground arith in rw (no_head, no_tail) refl)

queue_free-one :
    (fuel : ℕ) (q : TagQueue) (p : ℕ)
    → p ≢ 0
    → q.head ≡ p
    → q.tail ≡ p
    → queue_free fuel q ≡ free q.elem p
unfolding queue_free
queue_free-one fuel q p nz a b =
    (let some_head : (q.head == 0) ≡ false = ground arith in
      let same : (q.head == q.tail) ≡ true = ground arith in
      rw (some_head, same) (ap (free q.elem) a))

queue_free-more :
    (fuel : ℕ) (q : TagQueue) (p k : ℕ)
    → p ≢ 0
    → q.head ≡ p
    → q.tail ≡ k
    → p ≢ k
    → queue_free fuel q ≡ free_from fuel q.elem k p
unfolding queue_free
queue_free-more fuel q p k nz a b differ =
    (let some_head : (q.head == 0) ≡ false = ground arith in
      let other : (q.head == q.tail) ≡ false = ground arith in
      rw (some_head, other)
        (ap (λ n. free_from fuel q.elem n q.head) b ∙ ap (free_from fuel q.elem k) a))

-- `queue_free` of a queue ends, with a fuel of its length, without a second `free`: it frees every
-- element of the queue, and nothing else.
pub queue_free-Frees :
    (fuel : ℕ) (q : TagQueue) (es : List Entry)
    → IsFifo q es
    → length es ≤ fuel
    → Frees q.elem (queue_free fuel q) es
queue_free-Frees fuel q [] f few = record {
  left = q.elem;
  runs = queue_free-none fuel q f.head f.tail;
  gone = no_entry;
  others = λ a out. refl;
}
queue_free-Frees fuel q ((p, t) ∷ []) f few = elim f.linked [
  | link _ _ _ nz at l ↦ record {
    left = write q.elem p none;
    runs = queue_free-one fuel q p nz f.head f.tail ∙ free-some q.elem p _ nz at;
    gone = freed (write_self q.elem p none) no_entry;
    others = λ a out. write_other q.elem p a none (ground arith);
  }
]
queue_free-Frees fuel q ((p, t) ∷ (r, s) ∷ es) f few = elim f.linked [
  | link _ _ _ nz at l ↦
      rw
        (queue_free-more fuel q p (last ((r, s) ∷ es)) nz f.head f.tail
          (absent-last p (r, s) es (ground (arith, f.apart))))
        (free_from-Frees fuel ((r, s) ∷ es) q.elem p t (omega (arith, few)) f.linked f.apart)
]
