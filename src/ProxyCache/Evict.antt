-- ===== src/ProxyCache/Evict.antt =====
-- `evict` of Lab6/proxy.c drops the oldest objects.
use model_lib.Prelude.{
  and_left, and_right, ℕ, zero, suc, ◌+◌, ◌^◌, ◌≤◌, ◌<◌, ◌≡◌, refl, ◌∙◌, ap, true, false, not, inl,
  inr, Bool-cases, ltb, none, List, [], ◌∷◌, ◌++◌, arith, ◌==◌, length,
}
use model_lib.ProxyCache.{Cache, write, evict_loop, evict, sub_size}
use model_lib.ProxyCache.Queue.{
  Entry, first, last, absent, distinct, total, IsPending, load-ok, write_ne, Linked-write,
}
use model_lib.ProxyCache.Touch.{Returns}

-- Each of the entries is dropped while less than `n - 1` bytes are free.
abbrev pub Needed : ℕ → ℕ → List Entry → Type 0
Needed n freed [] = Unit
Needed n freed (d ∷ ds) = (freed + 1 < n) × Needed n (freed + d.len) ds

-- The oldest entries are gone, and only those that had to go: with them at least `n - 1` bytes.
pub record IsEvicted (c : Cache) (es : List Entry) (extra n freed : ℕ) (c' : Cache) : Type 0 where
  pub dropped : List Entry
  pub rest : List Entry
  pub split : es ≡ dropped ++ rest
  pub queue : IsPending c' rest extra
  pub enough : n ≤ freed + total dropped + 1
  pub needed : Needed n freed dropped
  pub same : (a : ℕ) → absent a es ≡ true → c'.cell a ≡ c.cell a

evict_loop-IsEvicted :
    (f : ℕ) (c : Cache) (es : List Entry) (extra n freed : ℕ)
    → length es < f
    → total es + extra < 2 ^ 64
    → n ≤ freed + total es + 1
    → IsPending c es extra
    → Returns (IsEvicted c es extra n freed) (evict_loop f n freed c)
unfolding evict_loop
evict_loop-IsEvicted zero c es extra n freed le small enough q = absurd (omega arith)
evict_loop-IsEvicted (suc f) c [] extra n freed le small enough q =
    let stop : ltb (freed + 1) n ≡ false = ground arith in
    (
      c,
      rw stop,
      record {
        dropped = [];
        rest = [];
        split = refl;
        queue = q;
        enough = omega arith;
        needed = tt;
        same = λ a _. refl;
      },
    )
evict_loop-IsEvicted (suc f) c (e ∷ es) extra n freed le small enough q =
    elim (Bool-cases (ltb (freed + 1) n)) [
      | inr stop ↦ (
        c,
        rw stop,
        record {
          dropped = [];
          rest = e ∷ es;
          split = refl;
          queue = q;
          enough = ground arith;
          needed = tt;
          same = λ a _. refl;
        },
      )
      | inl go ↦
          (let (ne, at, l) = q.linked in
            let c1 : Cache = record {
              cell = write c.cell e.addr none;
              head = first es 0;
              tail = c.tail;
              size = sub_size c.size e.len;
            } in
            let out = and_left (absent e.addr es) (distinct es) q.apart in
            let q1 : IsPending c1 es extra = record {
              linked = Linked-write c.cell e.addr none es 0 out l;
              head = refl;
              tail = last-tail es e.addr c.tail q.tail;
              apart = and_right (absent e.addr es) (distinct es) q.apart;
              size = omega (arith, q.size);
            } in
            let (c', run, ev) =
              evict_loop-IsEvicted f c1 es extra n (freed + e.len) (omega arith) (omega arith)
                (omega arith) q1 in
            (
              c',
              rw (go, q.head, load-ok c.cell e.addr ne at) run,
              record {
                dropped = e ∷ ev.dropped;
                rest = ev.rest;
                split = ap (◌∷◌ e) ev.split;
                queue = ev.queue;
                enough = omega (arith, ev.enough);
                needed = (ground arith, ev.needed);
                same = λ a h.
                    ev.same a (and_right (not (a == e.addr)) (absent a es) h)
                    ∙ write_ne c.cell e.addr a none (ground arith);
              },
            ))
    ]
  where
    last-tail : (fs : List Entry) (a t : ℕ) → t ≡ last fs a → t ≡ last fs t
    last-tail [] a t h = refl
    last-tail (g ∷ fs) a t h = h

-- With enough bytes in the queue, a total that does not overflow and more fuel than objects,
-- `evict` returns, reads no NULL pointer, and drops the shortest run of the oldest objects that
-- frees all but one of the bytes asked for.
pub evict-IsEvicted :
    (f : ℕ) (c : Cache) (es : List Entry) (extra n : ℕ)
    → length es < f
    → total es + extra < 2 ^ 64
    → n ≤ total es + 1
    → IsPending c es extra
    → Returns (IsEvicted c es extra n 0) (evict f n c)
unfolding evict
evict-IsEvicted f c es extra n le small enough q =
    evict_loop-IsEvicted f c es extra n 0 le small (omega arith) q
