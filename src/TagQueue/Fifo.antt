-- ===== src/TagQueue/Fifo.antt =====
-- Lab3/queue.c: first in, first out.
use model_lib.Prelude.{
  ℕ, ◌≡◌, refl, sym, ap, ◌∙◌, ◌≢◌, Bool, true, false, not, ◌&&◌, Option, some, List, [], ◌∷◌, ◌++◌,
  ◌==◌, arith,
}
use model_lib.TagQueue.{Elem, Elems, TagQueue, write, load, link_last, enq, drop_head, deq}

-- An element and its address.
abbrev pub Entry : Type 0
Entry = ℕ × ℕ

abbrev pub first : List Entry → ℕ
first [] = 0
first ((p, t) ∷ es) = p

abbrev pub last : List Entry → ℕ
last [] = 0
last ((p, t) ∷ []) = p
last (e ∷ e' ∷ es) = last (e' ∷ es)

abbrev pub absent : ℕ → List Entry → Bool
absent a [] = true
absent a ((p, t) ∷ es) = not (a == p) && absent a es

abbrev pub distinct : List Entry → Bool
distinct [] = true
distinct ((p, t) ∷ es) = absent p es && distinct es

-- The entries stand in memory, each leading to the next, and the last to NULL.
pub data Linked (h : Elems) : List Entry → Type 0 where
  done : Linked h []
  link :
      (p t : ℕ) (es : List Entry)
      → p ≢ 0
      → h p ≡ some (record { tag = t; next = first es })
      → Linked h es
      → Linked h ((p, t) ∷ es)

pub record IsFifo (q : TagQueue) (es : List Entry) : Type 0 where
  pub linked : Linked q.elem es
  pub head : q.head ≡ first es
  pub tail : q.tail ≡ last es
  pub apart : distinct es ≡ true

pub Linked-write :
    {h : Elems} (a : ℕ) (x : Option Elem) (es : List Entry)
    → absent a es ≡ true
    → Linked h es
    → Linked (write h a x) es
Linked-write a x [] out done = done
Linked-write a x ((p, t) ∷ es) out (link _ _ _ nz e l) =
    link p t es nz (ground arith) (Linked-write a x es (ground arith) l)

pub last-nonzero : (h : Elems) (e : Entry) (es : List Entry) → Linked h (e ∷ es) → last (e ∷ es) ≢ 0
last-nonzero h e [] (link p t _ nz x l) = nz
last-nonzero h e (e' ∷ es) (link p t _ nz x l) = last-nonzero h e' es l

last-append : (es : List Entry) (x : Entry) → last (es ++ x ∷ []) ≡ x.0
last-append [] x = refl
last-append (e ∷ []) x = refl
last-append (e ∷ e' ∷ es) x = last-append (e' ∷ es) x

-- The element of the last entry, and the list when it leads to a new one behind it.
record Extended (h : Elems) (es : List Entry) (p t : ℕ) : Type 0 where
  old : Elem
  at_last : h (last es) ≡ some old
  longer : Linked (write h (last es) (some (record old { next = p }))) (es ++ (p, t) ∷ [])

pub write_self : (h : Elems) (p : ℕ) (x : Option Elem) → write h p x p ≡ x
write_self h p x = ground arith

pub write_other : (h : Elems) (p q : ℕ) (x : Option Elem) → q ≢ p → write h p x q ≡ h q
write_other h p q x ne = ground arith

pub absent-last :
    (a : ℕ) (e : Entry) (es : List Entry) → absent a (e ∷ es) ≡ true → a ≢ last (e ∷ es)
absent-last a e [] h = ground arith
absent-last a e (e' ∷ es) h = absent-last a e' es (ground arith)

extend :
    {h : Elems} (e : Entry) (es : List Entry) (p t : ℕ)
    → p ≢ 0
    → h p ≡ some (record { tag = t; next = 0 })
    → absent p (e ∷ es) ≡ true
    → distinct (e ∷ es) ≡ true
    → Linked h (e ∷ es)
    → Extended h (e ∷ es) p t
extend {h} e [] p t nz at out d (link a s _ na x l) = record {
  old = record { tag = s; next = 0 };
  at_last = x;
  longer =
      link a s ((p, t) ∷ []) na (write_self h a _)
        (link p t [] nz (write_other h a p _ (ground arith) ∙ at) done);
}
extend {h} e (e' ∷ es) p t nz at out d (link a s _ na x l) =
    (let ex = extend e' es p t nz at (ground arith) (ground arith) l in
      record {
        old = ex.old;
        at_last = ex.at_last;
        longer =
            link a s (e' ∷ es ++ (p, t) ∷ []) na
              (write_other h (last (e' ∷ es)) a _ (absent-last a e' es (ground arith)) ∙ x)
              ex.longer;
      })

distinct-append :
    (es : List Entry) (p t : ℕ)
    → distinct es ≡ true
    → absent p es ≡ true
    → distinct (es ++ (p, t) ∷ []) ≡ true
distinct-append [] p t d out = refl
distinct-append (e ∷ es) p t d out = ground (arith, distinct-append es p t, absent-append e.0 es)
  where
    absent-append :
        (a : ℕ) (fs : List Entry) → absent a (fs ++ (p, t) ∷ []) ≡ (absent a fs && not (a == p))
    absent-append a [] = ground arith
    absent-append a (f ∷ fs) = ground (arith, absent-append a fs)

-- A run that gives a queue of the entries.
pub record Gives (o : Option TagQueue) (es : List Entry) : Type 0 where
  pub queue : TagQueue
  pub runs : o ≡ some queue
  pub fifo : IsFifo queue es

link_last-some :
    (q : TagQueue) (p : ℕ) (e : Elem)
    → q.tail ≢ 0
    → q.elem q.tail ≡ some e
    → link_last q p
      ≡ some (record q { elem = write q.elem q.tail (some (record e { next = p })); tail = p })
unfolding link_last load
link_last-some q p e nz at =
    (let other : (q.tail == 0) ≡ false = ground arith in rw (other, at) refl)

enq-more :
    (q : TagQueue) (p t : ℕ)
    → q.tail ≢ 0
    → enq q p t
      ≡ link_last (record q { elem = write q.elem p (some (record { tag = t; next = 0 })) }) p
unfolding enq
enq-more q p t nz = (let other : (q.tail == 0) ≡ false = ground arith in rw other refl)

enq-first :
    (q : TagQueue) (p t : ℕ)
    → q.head ≡ 0
    → q.tail ≡ 0
    → enq q p t
      ≡ some (record {
        elem = write q.elem p (some (record { tag = t; next = 0 }));
        head = p;
        tail = p;
      })
unfolding enq
enq-first q p t a b =
    (let no_tail : (q.tail == 0) ≡ true = ground arith in
      let no_head : (q.head == 0) ≡ true = ground arith in rw (no_tail, no_head) refl)

-- `enq` of a new element on a well linked queue returns without reading through NULL, and puts the
-- element behind the others, which keep their order and their tags.
pub enq-Gives :
    (q : TagQueue) (es : List Entry) (p t : ℕ)
    → IsFifo q es
    → p ≢ 0
    → absent p es ≡ true
    → Gives (enq q p t) (es ++ (p, t) ∷ [])
enq-Gives q [] p t f nz out = record {
  queue = record {
    elem = write q.elem p (some (record { tag = t; next = 0 }));
    head = p;
    tail = p;
  };
  runs = enq-first q p t f.head f.tail;
  fifo = record {
    linked = link p t [] nz (write_self q.elem p _) done;
    head = refl;
    tail = refl;
    apart = refl;
  };
}
enq-Gives q (e ∷ es) p t f nz out =
    (let h = write q.elem p (some (record { tag = t; next = 0 })) in
      let l = Linked-write p (some (record { tag = t; next = 0 })) (e ∷ es) out f.linked in
      let ex = extend {h = h} e es p t nz (write_self q.elem p _) out f.apart l in
      let some_tail : q.tail ≢ 0 = rw f.tail (last-nonzero q.elem e es f.linked) in
      let at : h q.tail ≡ some ex.old = ap h f.tail ∙ ex.at_last in
      record {
        queue = record q { elem = write h q.tail (some (record ex.old { next = p })); tail = p };
        runs =
            enq-more q p t some_tail ∙ link_last-some (record q { elem = h }) p ex.old some_tail at;
        fifo = record {
          linked = rw f.tail ex.longer;
          head = f.head;
          tail = sym (last-append (e ∷ es) (p, t));
          apart = distinct-append (e ∷ es) p t f.apart out;
        };
      })

-- What `deq` takes, and the queue that is left.
pub record Takes (o : Option (TagQueue × ℕ)) (p : ℕ) (es : List Entry) : Type 0 where
  pub queue : TagQueue
  pub runs : o ≡ some (queue, p)
  pub fifo : IsFifo queue es

deq-one :
    (q : TagQueue) (p : ℕ)
    → p ≢ 0
    → q.head ≡ p
    → q.tail ≡ p
    → deq q ≡ some (record q { head = 0; tail = 0 }, p)
unfolding deq
deq-one q p nz a b =
    (let some_head : (q.head == 0) ≡ false = ground arith in
      let same : (q.head == q.tail) ≡ true = ground arith in
      rw (some_head, same) (ap (λ n. some (record q { head = 0; tail = 0 }, n)) a))

deq-more :
    (q : TagQueue) (p : ℕ) (e : Elem)
    → p ≢ 0
    → q.head ≡ p
    → q.head ≢ q.tail
    → q.elem p ≡ some e
    → deq q ≡ some (record q { head = e.next }, p)
unfolding deq drop_head load
deq-more q p e nz a differ at =
    (let some_head : (q.head == 0) ≡ false = ground arith in
      let other : (q.head == q.tail) ≡ false = ground arith in
      let here : q.elem q.head ≡ some e = ap q.elem a ∙ at in
      rw (some_head, other, here) (ap (λ n. some (record q { head = e.next }, n)) a))

-- `deq` of a queue that is not empty takes the element that has been there longest, and leaves the
-- others in their order.
pub deq-Takes :
    (q : TagQueue) (p t : ℕ) (es : List Entry) → IsFifo q ((p, t) ∷ es) → Takes (deq q) p es
deq-Takes q p t [] f = elim f.linked [
  | link _ _ _ nz at l ↦ record {
    queue = record q { head = 0; tail = 0 };
    runs = deq-one q p nz f.head f.tail;
    fifo = record { linked = done; head = refl; tail = refl; apart = refl };
  }
]
deq-Takes q p t (e ∷ es) f = elim f.linked [
  | link _ _ _ nz at l ↦
      (let away : p ≢ last (e ∷ es) = absent-last p e es (ground (arith, f.apart)) in
        record {
          queue = record q { head = first (e ∷ es) };
          runs =
              deq-more q p (record { tag = t; next = first (e ∷ es) }) nz f.head
                (rw (f.head, f.tail) away) at;
          fifo = record { linked = l; head = refl; tail = f.tail; apart = ground (arith, f.apart) };
        })
]
