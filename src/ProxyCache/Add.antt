-- ===== src/ProxyCache/Add.antt =====
-- `cacheAdd` of Lab6/proxy.c.
use model_lib.Prelude.{
  and_right, ℕ, ◌+◌, ◌*◌, ◌%◌, ◌^◌, ◌≤◌, ◌<◌, ◌≡◌, refl, sym, ◌∙◌, ◌≢◌, ap, true, false, inl, inr,
  Bool-cases, ltb, some, List, [], ◌∷◌, ◌++◌, arith, ◌==◌, length,
}
use model_lib.Parse.{Text}
use model_lib.ProxyCache.{Cache, ok, write, link_object, insert_object, cache_add, max_cache_size}
use model_lib.ProxyCache.Queue.{
  Entry, object, absent, total, IsQueue, IsPending, set_next-ok, write_self, Linked-write,
  absent-append, total-append,
}
use model_lib.ProxyCache.Touch.{Returns, append_object-IsQueue}
use model_lib.ProxyCache.Find.{address_of, cache_find-address_of}
use model_lib.ProxyCache.Evict.{evict-IsEvicted, Needed}

-- The new object behind the queue, an empty queue included.
link_object-IsQueue :
    (c : Cache) (es : List Entry) (x : Entry)
    → IsPending c es x.len
    → absent x.addr es ≡ true
    → x.addr ≢ 0
    → c.cell x.addr ≡ some (object x 0)
    → Returns (λ c'. IsQueue c' (es ++ x ∷ [])) (link_object x.addr c)
unfolding link_object
link_object-IsQueue c [] x q out ne at = (
  record c { cell = write c.cell x.addr (some (object x 0)); head = x.addr; tail = x.addr },
  rw (q.head, set_next-ok c.cell x.addr 0 ne at),
  record {
    linked = (ne, write_self c.cell x.addr (some (object x 0)), tt);
    head = refl;
    tail = refl;
    apart = refl;
    size = omega (arith, q.size);
  },
)
link_object-IsQueue c (e ∷ es) x q out ne at =
    let (ne', _, _) = q.linked in
    let some_head : (c.head == 0) ≡ false = ground (arith, q.head) in
    let (c', run, q') =
      append_object-IsQueue c e es x 0 q.linked q.head q.tail q.apart out ne at q.size in
    (c', rw some_head run, q')

abbrev pub max_object_size : ℕ
max_object_size = 100 * 1024

-- What `cacheAdd` of a new object does to the queue.
pub record IsAdded (es : List Entry) (x : Entry) (c' : Cache) : Type 0 where
  pub dropped : List Entry
  pub rest : List Entry
  pub split : es ≡ dropped ++ rest
  pub queue : IsQueue c' (rest ++ x ∷ [])
  -- nothing goes if there is room, else the shortest run of the oldest that frees `x.len - 1` bytes
  pub kept : total es + x.len ≤ max_cache_size → dropped ≡ []
  pub enough : max_cache_size < total es + x.len → x.len ≤ total dropped + 1
  pub needed : Needed x.len 0 dropped

module _ (f : ℕ) (c : Cache) (es : List Entry) (x : Entry) (q : IsQueue c es) (le : length es < f)
    (ne : x.addr ≢ 0) (out : absent x.addr es ≡ true) (fits : x.len ≤ max_object_size)
    (small : total es + x.len < 2 ^ 64) where
  abbrev stored : Cache
  stored = record c {
    cell = write c.cell x.addr (some (object x 0));
    size = (c.size + x.len) % 2 ^ 64;
  }

  stored-IsPending : IsPending stored es x.len
  stored-IsPending = record {
    linked = Linked-write c.cell x.addr (some (object x 0)) es 0 out q.linked;
    head = q.head;
    tail = q.tail;
    apart = q.apart;
    size = omega (arith, q.size);
  }

  absent-right : (ds rs : List Entry) → absent x.addr (ds ++ rs) ≡ true → absent x.addr rs ≡ true
  absent-right ds rs h =
      and_right (absent x.addr ds) (absent x.addr rs) (sym (absent-append x.addr ds rs) ∙ h)

  insert_room :
      total es + x.len ≤ max_cache_size
      → Returns (IsAdded es x) (insert_object f x.addr x.key x.value x.len c)
  unfolding insert_object
  insert_room room =
      let under : ltb max_cache_size stored.size ≡ false = ground (arith, q.size) in
      let (c', run, q') =
        link_object-IsQueue stored es x stored-IsPending out ne
          (write_self c.cell x.addr (some (object x 0))) in
      (
        c',
        rw under run,
        record {
          dropped = [];
          rest = es;
          split = refl;
          queue = q';
          kept = λ _. refl;
          enough = λ over. absurd (omega arith);
          needed = tt;
        },
      )

  insert_full :
      max_cache_size < total es + x.len
      → Returns (IsAdded es x) (insert_object f x.addr x.key x.value x.len c)
  unfolding insert_object
  insert_full over =
      let above : ltb max_cache_size stored.size ≡ true = ground (arith, q.size) in
      let (c1, evicted, ev) =
        evict-IsEvicted f stored es x.len x.len le small (omega arith) stored-IsPending in
      let (c', run, q') =
        link_object-IsQueue c1 ev.rest x ev.queue
          (absent-right ev.dropped ev.rest (rw ev.split at out)) ne
          (ev.same x.addr out ∙ write_self c.cell x.addr (some (object x 0))) in
      (
        c',
        rw (above, evicted) run,
        record {
          dropped = ev.dropped;
          rest = ev.rest;
          split = ev.split;
          queue = q';
          kept = λ room. absurd (omega arith);
          enough = λ _. omega (arith, ev.enough);
          needed = ev.needed;
        },
      )

  -- On a well linked queue with a total that does not overflow, with more fuel than objects,
  -- `cacheAdd` of an object of a new key, at a new address and of at most `MAX_OBJECT_SIZE` bytes,
  -- returns without a fault: the object becomes the last of the queue; none goes if the total stays
  -- within the limit, and else the shortest run of the oldest objects that frees all but one of its
  -- bytes.
  pub cache_add-IsAdded :
      address_of x.key es ≡ 0 → Returns (IsAdded es x) (cache_add f x.addr x.key x.value x.len c)
  unfolding cache_add
  cache_add-IsAdded new =
      let (c', run, added) : Returns (IsAdded es x) (insert_object f x.addr x.key x.value x.len c) =
        elim (Bool-cases (ltb max_cache_size (total es + x.len))) [
          | inl over ↦ insert_full (ground arith)
          | inr room ↦ insert_room (ground arith)
        ] in
      (c', rw (cache_find-address_of f c x.key es le q, new) run, added)

  -- A key that is there is not stored again.
  pub cache_add_known :
      (p : ℕ) (value : Text) (len : ℕ)
      → address_of x.key es ≢ 0
      → cache_add f p x.key value len c ≡ ok c
  unfolding cache_add
  cache_add_known p value len known =
      let hit : (address_of x.key es == 0) ≡ false = ground arith in
      rw (cache_find-address_of f c x.key es le q, hit)

abbrev first_len : List Entry → ℕ
first_len [] = 0
first_len (e ∷ _) = e.len

-- The eviction may stop one byte short: if the queue is full and its oldest object is one byte
-- shorter than the new one, then only that object goes, and the total passes the limit by one.
pub IsAdded-exceeds :
    (e : Entry) (es : List Entry) (x : Entry) (c' : Cache)
    → total (e ∷ es) ≡ max_cache_size
    → e.len + 1 ≡ x.len
    → 1 < x.len
    → IsAdded (e ∷ es) x c'
    → c'.size ≡ max_cache_size + 1
IsAdded-exceeds e es x c' full shorter two a =
    shape a.dropped a.rest a.split a.needed (a.enough (omega arith)) a.queue.size
  where
    shape :
        (ds rs : List Entry)
        → e ∷ es ≡ ds ++ rs
        → Needed x.len 0 ds
        → x.len ≤ total ds + 1
        → c'.size ≡ total (rs ++ x ∷ [])
        → c'.size ≡ max_cache_size + 1
    shape [] rs split needed enough size = absurd (omega arith)
    shape (d ∷ []) rs split needed enough size =
        omega (arith, ap total split, total-append rs (x ∷ []), ap first_len split)
    shape (d ∷ d' ∷ ds) rs split needed enough size = absurd (omega (arith, ap first_len split))

-- When a well linked queue is exactly full and its oldest object is one byte shorter than an object
-- of two bytes or more, of a new key and at a new address, `cacheAdd` of that object leaves a cache
-- of one byte more than `MAX_CACHE_SIZE`.
pub cache_add_exceeds :
    (f : ℕ) (c : Cache) (e : Entry) (es : List Entry) (x : Entry)
    → IsQueue c (e ∷ es)
    → length (e ∷ es) < f
    → x.addr ≢ 0
    → absent x.addr (e ∷ es) ≡ true
    → x.len ≤ max_object_size
    → address_of x.key (e ∷ es) ≡ 0
    → total (e ∷ es) ≡ max_cache_size
    → e.len + 1 ≡ x.len
    → 1 < x.len
    → Returns (λ c'. c'.size ≡ max_cache_size + 1) (cache_add f x.addr x.key x.value x.len c)
cache_add_exceeds f c e es x q le ne out fits new full shorter two =
    let (c', run, a) = cache_add-IsAdded f c (e ∷ es) x q le ne out fits (omega arith) new in
    (c', run, IsAdded-exceeds e es x c' full shorter two a)
