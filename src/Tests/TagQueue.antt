-- ===== src/Tests/TagQueue.antt =====
-- Runs of the queue of Lab3/queue.c.
use model_lib.Prelude.{refl, none, some, [], ◌∷◌, arith}
use model_lib.TagQueue.{TagQueue, write, enq, deq}
use model_lib.TagQueue.Fifo.{done, link, IsFifo, Gives, enq-Gives, Takes, deq-Takes}

-- The tags 7 and 8 at the addresses 1 and 2.
abbrev two : TagQueue
two = record {
  elem =
      write (write (λ p. none) 1 (some (record { tag = 7; next = 2 }))) 2
        (some (record { tag = 8; next = 0 }));
  head = 1;
  tail = 2;
}

two-IsFifo : IsFifo two ((1, 7) ∷ (2, 8) ∷ [])
two-IsFifo = record {
  linked = link 1 7 _ (omega arith) refl (link 2 8 _ (omega arith) refl done);
  head = refl;
  tail = refl;
  apart = refl;
}

enq-Gives_example : Gives (enq two 3 9) ((1, 7) ∷ (2, 8) ∷ (3, 9) ∷ [])
enq-Gives_example = enq-Gives two ((1, 7) ∷ (2, 8) ∷ []) 3 9 two-IsFifo (omega arith) refl

deq-Takes_example : Takes (deq two) 1 ((2, 8) ∷ [])
deq-Takes_example = deq-Takes two 1 7 ((2, 8) ∷ []) two-IsFifo
