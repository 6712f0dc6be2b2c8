-- ===== src/ProxyCache/Touch.antt =====
-- `replace_tail` of Lab6/proxy.c moves an object that is not the last one to the end.
use model_lib.Prelude.{
  and_left, and_right, and_intro, ℕ, zero, suc, ◌+◌, ◌<◌, ◌≡◌, refl, ◌∙◌, ◌≢◌, true, false, not,
  some, List, [], ◌∷◌, ◌++◌, arith, ◌==◌, length,
}
use model_lib.ProxyCache.{
  Cells, Cache, Run, ok, write, append_object, before_loop, unlink_object, replace_tail,
}
use model_lib.ProxyCache.Queue.{
  Entry, object, last, Linked, absent, distinct, total, IsQueue, load-ok, set_next-ok, write_ne,
  write_self, Linked-write, Linked-append, Linked-left, Linked-right, absent-append, absent-last,
  Linked-relink, distinct-append, distinct-left, distinct-last, distinct-middle, total-append,
  last-append,
}

-- A run that returns, with what holds then.
abbrev pub Returns {ℓ κ} : {A : Type ℓ} → (A → Type κ) → Run A → Type (ℓ ⊔ κ)
Returns {A} P r = (a : A) × (r ≡ ok a) × P a

-- To link an object behind a queue that it is not part of.
pub append_object-IsQueue :
    (c : Cache) (e : Entry) (es : List Entry) (x : Entry) (q : ℕ)
    → Linked c.cell (e ∷ es) 0
    → c.head ≡ e.addr
    → c.tail ≡ last es e.addr
    → distinct (e ∷ es) ≡ true
    → absent x.addr (e ∷ es) ≡ true
    → x.addr ≢ 0
    → c.cell x.addr ≡ some (object x q)
    → c.size ≡ total (e ∷ es) + x.len
    → Returns (λ c'. IsQueue c' ((e ∷ es) ++ x ∷ [])) (append_object x.addr c)
unfolding append_object
append_object-IsQueue c e es x q l head tail d out ne at size =
    let h = write c.cell x.addr (some (object x 0)) in
    let l' = Linked-write c.cell x.addr (some (object x 0)) (e ∷ es) 0 out l in
    let (o, ne', at', l'') = Linked-relink h e es 0 x.addr l' d in
    let h' = write h (last es e.addr) (some (record o { next = x.addr })) in
    let x_at : h' x.addr ≡ some (object x 0) =
      write_ne h _ x.addr _ (absent-last x.addr e es out) ∙ write_self c.cell x.addr _ in
    (
      record c { cell = h'; tail = x.addr },
      rw (set_next-ok c.cell x.addr 0 ne at, tail, set_next-ok h (last es e.addr) x.addr ne' at'),
      record {
        linked = Linked-append h' (e ∷ es) (x ∷ []) 0 l'' (ne, x_at, tt);
        head = head;
        tail = rw last-append;
        apart = distinct-append (e ∷ es) x d out;
        size = omega (arith, total-append (e ∷ es) (x ∷ []));
      },
    )

pub before_loop-last :
    (f : ℕ) (h : Cells) (e : Entry) (es : List Entry) (x : Entry) (fs : List Entry)
    → length es < f
    → Linked h ((e ∷ es) ++ x ∷ fs) 0
    → absent x.addr (e ∷ es) ≡ true
    → before_loop f h x.addr e.addr ≡ ok (last es e.addr)
unfolding before_loop
before_loop-last zero h e es x fs le l out = absurd (omega arith)
before_loop-last (suc f) h e [] x fs le (ne, at, l) out =
    let same : (x.addr == x.addr) ≡ true = ground arith in rw (load-ok h e.addr ne at, same)
before_loop-last (suc f) h e (g ∷ es) x fs le (ne, at, l) out =
    let tail_out = and_right (not (x.addr == e.addr)) (absent x.addr (g ∷ es)) out in
    let other : (g.addr == x.addr) ≡ false =
      ground (arith, and_left (not (x.addr == g.addr)) (absent x.addr es) tail_out) in
    rw (load-ok h e.addr ne at, other) (before_loop-last f h g es x fs (omega arith) l tail_out)

module _ (f : ℕ) (c : Cache) (x y : Entry) (fs : List Entry) where
  abbrev Moved : List Entry → Type 0
  Moved es = Returns (λ c'. IsQueue c' ((es ++ y ∷ fs) ++ x ∷ [])) (replace_tail f x.addr c)

  touch_head : IsQueue c (x ∷ y ∷ fs) → Moved []
  unfolding replace_tail
  touch_head q =
      let (ne, at, l) = q.linked in
      let here : (x.addr == x.addr) ≡ true = ground arith in
      let (c', run, q') =
        append_object-IsQueue (record c { head = y.addr }) y fs x y.addr l refl q.tail
          (and_right (absent x.addr (y ∷ fs)) (distinct (y ∷ fs)) q.apart)
          (and_left (absent x.addr (y ∷ fs)) (distinct (y ∷ fs)) q.apart) ne at
          (omega (arith, q.size)) in
      (c', rw (q.head, here, load-ok c.cell x.addr ne at) run, q')

  touch_middle :
      (e : Entry) (es : List Entry)
      → length es < f
      → IsQueue c ((e ∷ es) ++ x ∷ y ∷ fs)
      → Moved (e ∷ es)
  unfolding replace_tail unlink_object
  touch_middle e es le q =
      let (ne, at, l) = Linked-right c.cell (e ∷ es) (x ∷ y ∷ fs) 0 q.linked in
      let (out, out', d) = distinct-middle (e ∷ es) x (y ∷ fs) q.apart in
      let z = last es e.addr in
      let (o, nz, at_z, l') =
        Linked-relink c.cell e es x.addr y.addr
          (Linked-left c.cell (e ∷ es) (x ∷ y ∷ fs) 0 q.linked)
          (distinct-left (e ∷ es) (x ∷ y ∷ fs) q.apart) in
      let h = write c.cell z (some (record o { next = y.addr })) in
      let l'' =
        Linked-write c.cell z (some (record o { next = y.addr })) (y ∷ fs) 0
          (distinct-last e es (y ∷ fs) d) l in
      let at' : h x.addr ≡ some (object x y.addr) =
        write_ne c.cell z x.addr _ (absent-last x.addr e es out) ∙ at in
      let other : (x.addr == c.head) ≡ false =
        ground (arith, and_left (not (x.addr == e.addr)) (absent x.addr es) out, q.head) in
      let walk : before_loop f c.cell x.addr c.head ≡ ok z =
        rw q.head (before_loop-last f c.cell e es x (y ∷ fs) le q.linked out) in
      let (c', run, q') =
        append_object-IsQueue (record c { cell = h }) e (es ++ y ∷ fs) x y.addr
          (Linked-append h (e ∷ es) (y ∷ fs) 0 l' l'') q.head
          (rw last-append (q.tail ∙ last-append (e ∷ es) (x ∷ y ∷ fs) c.tail)) d
          (absent-append x.addr (e ∷ es) (y ∷ fs)
            ∙ and_intro (absent x.addr (e ∷ es)) (absent x.addr (y ∷ fs)) out out')
          ne at'
          (omega
            (arith, q.size, total-append (e ∷ es) (x ∷ y ∷ fs), total-append (e ∷ es) (y ∷ fs))) in
      (
        c',
        rw (other, walk, load-ok c.cell x.addr ne at, set_next-ok c.cell z y.addr nz at_z) run,
        q',
      )

  -- With enough fuel, `replace_tail` of an object that has another one behind it in the queue moves
  -- it to the end of the queue: the order of the others, the size and every stored byte stay.
  pub replace_tail-IsQueue :
      (es : List Entry) → length es < f + 1 → IsQueue c (es ++ x ∷ y ∷ fs) → Moved es
  replace_tail-IsQueue [] le q = touch_head q
  replace_tail-IsQueue (e ∷ es) le q = touch_middle e es (omega arith) q
