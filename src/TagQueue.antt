-- ===== src/TagQueue.antt =====
-- Lab3/queue.c: a queue of line tags, linked in memory. An address stands for a pointer and 0 for NULL;
-- `none` is a read of an address that holds no element, or a second `free` of it.
pub mod Fifo
pub mod Free
use model_lib.Prelude.{
  ℕ, zero, suc, ◌≡◌, Bool, true, false, not, ◌&&◌, Option, none, some, ◌==◌, if◌then◌else◌,
}

pub record Elem : Type 0 where
  pub tag : ℕ
  pub next : ℕ

abbrev pub Elems : Type 0
Elems = ℕ → Option Elem

pub record TagQueue : Type 0 where
  pub elem : Elems
  pub head : ℕ
  pub tail : ℕ

infixl 5 ◌>>=◌
abbrev pub ◌>>=◌ {ℓ κ} : {A : Type ℓ} {B : Type κ} → Option A → (A → Option B) → Option B
none >>= f = none
some a >>= f = f a

abbrev pub write : Elems → ℕ → Option Elem → Elems
write h p x q = if p == q then x else h q

unfoldable pub load : Elems → ℕ → Option Elem
load h p = if p == 0 then none else h p

unfoldable pub free : Elems → ℕ → Option Elems
free h p = load h p >>= λ e. some (write h p none)

unfoldable pub queue_new : Elems → TagQueue
queue_new h = record { elem = h; head = 0; tail = 0 }

-- The argument is `none` for a NULL pointer.
unfoldable pub queue_empty : Option TagQueue → Bool
queue_empty none = false
queue_empty (some q) = (q.head == 0) && (q.tail == 0)

-- `q->tail->next = p; q->tail = p`
unfoldable pub link_last : TagQueue → ℕ → Option TagQueue
link_last q p = load q.elem q.tail >>= λ e.
    some (record q { elem = write q.elem q.tail (some (record e { next = p })); tail = p })

-- The new element is the one that `malloc` gave at `p`.
unfoldable pub enq : TagQueue → ℕ → ℕ → Option TagQueue
enq q p line_tag =
    let q1 = record q { elem = write q.elem p (some (record { tag = line_tag; next = 0 })) } in
    if (q.tail == 0) && (q.head == 0)
    then some (record q1 { head = p; tail = p })
    else link_last q1 p

-- `q->head = q->head->next`
unfoldable pub drop_head : TagQueue → Option (TagQueue × ℕ)
drop_head q = load q.elem q.head >>= λ e. some (record q { head = e.next }, q.head)

-- The result is the element that was taken, or 0.
unfoldable pub deq : TagQueue → Option (TagQueue × ℕ)
deq q =
    if (q.head == 0) && (q.tail == 0)
    then some (q, 0)
    else if (q.head == q.tail) && not (q.head == 0)
    then some (record q { head = 0; tail = 0 }, q.head)
    else drop_head q

-- The loop of `queue_free`, with the `free` behind it.
unfoldable pub free_from : ℕ → Elems → ℕ → ℕ → Option Elems
free_from zero h tail tmp = none
free_from (suc fuel) h tail tmp =
    let rest = load h tmp >>= λ e. free h tmp >>= λ h1. free_from fuel h1 tail e.next in
    if tmp == tail then free h tmp else rest

-- What is left of the elements; the header itself is freed too.
unfoldable pub queue_free : ℕ → TagQueue → Option Elems
queue_free fuel q =
    if (q.head == 0) && (q.tail == 0)
    then some q.elem
    else if (q.head == q.tail) && not (q.head == 0)
    then free q.elem q.head
    else if not (q.head == q.tail) && not (q.head == 0)
    then free_from fuel q.elem q.tail q.head
    else some q.elem
