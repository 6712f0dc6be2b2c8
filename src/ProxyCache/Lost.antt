-- ===== src/ProxyCache/Lost.antt =====
-- `replace_tail` of Lab6/proxy.c loses the object that is already the last one.
use model_lib.Prelude.{
  and_left, ℕ, ◌<◌, ◌≡◌, refl, ◌∙◌, true, false, not, some, List, [], ◌∷◌, ◌++◌, arith, ◌==◌,
  length,
}
use model_lib.Parse.{Text}
use model_lib.ProxyCache.{Cache, ok, write, append_object, unlink_object, replace_tail, cache_find}
use model_lib.ProxyCache.Queue.{
  Entry, object, first, last, Linked, absent, IsQueue, load-ok, set_next-ok, write_ne, write_self,
  Linked-write, Linked-left, Linked-right, absent-last, Linked-relink, distinct-left,
  distinct-middle, last-append,
}
use model_lib.ProxyCache.Touch.{Returns, before_loop-last}
use model_lib.ProxyCache.Find.{address_of, find_loop-address_of}

-- What is left: the queue without the object `x`, which leads to itself and is the tail, though no
-- other object leads to it.
pub record IsLost (c c' : Cache) (es : List Entry) (x : Entry) : Type 0 where
  pub linked : Linked c'.cell es 0
  pub head : c'.head ≡ first es 0
  pub tail : c'.tail ≡ x.addr
  pub loop : c'.cell x.addr ≡ some (object x x.addr)
  pub size : c'.size ≡ c.size

-- With enough fuel, `replace_tail` of the last object of a queue of two or more unlinks it: it
-- becomes a loop of its own that only the tail pointer leads to, while the size still counts it.
pub replace_tail-IsLost :
    (f : ℕ) (c : Cache) (e : Entry) (es : List Entry) (x : Entry)
    → length es < f
    → IsQueue c ((e ∷ es) ++ x ∷ [])
    → Returns (λ c'. IsLost c c' (e ∷ es) x) (replace_tail f x.addr c)
unfolding replace_tail unlink_object append_object
replace_tail-IsLost f c e es x le q =
    let (ne, at, _) = Linked-right c.cell (e ∷ es) (x ∷ []) 0 q.linked in
    let (out, _, d) = distinct-middle (e ∷ es) x [] q.apart in
    let z = last es e.addr in
    let (o, nz, at_z, l) =
      Linked-relink c.cell e es x.addr 0 (Linked-left c.cell (e ∷ es) (x ∷ []) 0 q.linked)
        (distinct-left (e ∷ es) (x ∷ []) q.apart) in
    let h = write c.cell z (some (record o { next = 0 })) in
    let at' : h x.addr ≡ some (object x 0) =
      write_ne c.cell z x.addr _ (absent-last x.addr e es out) ∙ at in
    let h' = write h x.addr (some (object x 0)) in
    let h'' = write h' x.addr (some (object x x.addr)) in
    let other : (x.addr == e.addr) ≡ false =
      ground (arith, and_left (not (x.addr == e.addr)) (absent x.addr es) out) in
    let tail_x : c.tail ≡ x.addr = q.tail ∙ last-append (e ∷ es) (x ∷ []) c.tail in
    (
      record c { cell = h''; tail = x.addr },
      rw (
        q.head,
        other,
        before_loop-last f c.cell e es x [] le q.linked out,
        load-ok c.cell x.addr ne at,
        set_next-ok c.cell z 0 nz at_z,
        set_next-ok h x.addr 0 ne at',
        tail_x,
        set_next-ok h' x.addr x.addr ne (write_self h x.addr (some (object x 0))),
      ),
      record {
        linked =
            Linked-write h' x.addr (some (object x x.addr)) (e ∷ es) 0 out
              (Linked-write h x.addr (some (object x 0)) (e ∷ es) 0 out l);
        head = q.head;
        tail = refl;
        loop = write_self h' x.addr (some (object x x.addr));
        size = refl;
      },
    )

-- `cacheFind` then finds the entries that are left, and no other.
pub find-after_loss :
    (f : ℕ) (c c' : Cache) (es : List Entry) (x : Entry) (key : Text)
    → length es < f
    → IsLost c c' es x
    → cache_find f c' key ≡ ok (address_of key es)
unfolding cache_find
find-after_loss f c c' es x key le q =
    rw (q.head) (find_loop-address_of f c'.cell key es le q.linked)

-- `replace_tail` of the only object empties the queue: the head becomes NULL, the object leads to
-- itself, and the size still counts it.
pub replace_tail_only :
    (f : ℕ) (c : Cache) (x : Entry)
    → IsQueue c (x ∷ [])
    → Returns (λ c'. (c'.head ≡ 0) × IsLost c c' [] x) (replace_tail f x.addr c)
unfolding replace_tail append_object
replace_tail_only f c x q =
    let (ne, at, _) = q.linked in
    let here : (x.addr == x.addr) ≡ true = ground arith in
    let h' = write c.cell x.addr (some (object x 0)) in
    let h'' = write h' x.addr (some (object x x.addr)) in
    (
      record c { cell = h''; head = 0; tail = x.addr },
      rw (
        q.head,
        here,
        load-ok c.cell x.addr ne at,
        set_next-ok c.cell x.addr 0 ne at,
        q.tail,
        set_next-ok h' x.addr x.addr ne (write_self c.cell x.addr (some (object x 0))),
      ),
      (
        refl,
        record {
          linked = tt;
          head = refl;
          tail = refl;
          loop = write_self h' x.addr (some (object x x.addr));
          size = refl;
        },
      ),
    )
