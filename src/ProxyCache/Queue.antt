-- ===== src/ProxyCache/Queue.antt =====
-- What the cache of Lab6/proxy.c stands for: a queue of entries, the oldest use first.
use model_lib.Prelude.{
  ℕ, ◌+◌, ◌≡◌, refl, ◌∙◌, ◌≢◌, Bool, true, not, ◌&&◌, Option, some, List, [], ◌∷◌, ◌++◌, arith,
  ◌==◌, and_left, and_right,
}
use model_lib.Parse.{Text}
use model_lib.ProxyCache.{Object, Cells, Cache, ok, write, load, set_next}

pub record Entry : Type 0 where
  pub addr : ℕ
  pub key : Text
  pub value : Text
  pub len : ℕ

abbrev pub object : Entry → ℕ → Object
object e q = record { key = e.key; value = e.value; len = e.len; next = q }

-- The address of the first entry, or `stop`.
abbrev pub first : List Entry → ℕ → ℕ
first [] stop = stop
first (e ∷ es) stop = e.addr

-- The address of the last entry, or `start`.
abbrev pub last : List Entry → ℕ → ℕ
last [] start = start
last (e ∷ es) start = last es e.addr

-- The entries stand in memory, each leading to the next and the last one to `stop`.
abbrev pub Linked : Cells → List Entry → ℕ → Type 0
Linked h [] stop = Unit
Linked h (e ∷ es) stop =
    (e.addr ≢ 0) × (h e.addr ≡ some (object e (first es stop))) × Linked h es stop

abbrev pub absent : ℕ → List Entry → Bool
absent a [] = true
absent a (e ∷ es) = not (a == e.addr) && absent a es

abbrev pub distinct : List Entry → Bool
distinct [] = true
distinct (e ∷ es) = absent e.addr es && distinct es

abbrev pub total : List Entry → ℕ
total [] = 0
total (e ∷ es) = e.len + total es

pub record IsQueue (c : Cache) (es : List Entry) : Type 0 where
  pub linked : Linked c.cell es 0
  pub head : c.head ≡ first es 0
  pub tail : c.tail ≡ last es c.tail
  pub apart : distinct es ≡ true
  pub size : c.size ≡ total es

pub write_self : (h : Cells) (p : ℕ) (x : Option Object) → write h p x p ≡ x
write_self h p x = ground arith

pub write_ne : (h : Cells) (p q : ℕ) (x : Option Object) → q ≢ p → write h p x q ≡ h q
write_ne h p q x ne = ground arith

pub load-ok : (h : Cells) (p : ℕ) {o : Object} → p ≢ 0 → h p ≡ some o → load h p ≡ ok o
unfolding load
load-ok h p ne e = ground arith

pub set_next-ok :
    (h : Cells) (p q : ℕ) {o : Object}
    → p ≢ 0
    → h p ≡ some o
    → set_next h p q ≡ ok (write h p (some (record o { next = q })))
unfolding set_next
set_next-ok h p q ne e = rw (load-ok h p ne e)

pub Linked-write :
    (h : Cells) (a : ℕ) (x : Option Object) (es : List Entry) (stop : ℕ)
    → absent a es ≡ true
    → Linked h es stop
    → Linked (write h a x) es stop
Linked-write h a x [] stop out l = tt
Linked-write h a x (e ∷ es) stop out (ne, at, l) =
    (ne, ground arith, Linked-write h a x es stop (ground arith) l)

pub Linked-append :
    (h : Cells) (es fs : List Entry) (stop : ℕ)
    → Linked h es (first fs stop)
    → Linked h fs stop
    → Linked h (es ++ fs) stop
Linked-append h [] fs stop l k = k
Linked-append h (e ∷ []) fs stop (ne, at, l) k = (ne, at, k)
Linked-append h (e ∷ f ∷ es) fs stop (ne, at, l) k = (ne, at, Linked-append h (f ∷ es) fs stop l k)

pub Linked-left :
    (h : Cells) (es fs : List Entry) (stop : ℕ)
    → Linked h (es ++ fs) stop
    → Linked h es (first fs stop)
Linked-left h [] fs stop l = tt
Linked-left h (e ∷ []) fs stop (ne, at, l) = (ne, at, tt)
Linked-left h (e ∷ f ∷ es) fs stop (ne, at, l) = (ne, at, Linked-left h (f ∷ es) fs stop l)

pub Linked-right :
    (h : Cells) (es fs : List Entry) (stop : ℕ) → Linked h (es ++ fs) stop → Linked h fs stop
Linked-right h [] fs stop l = l
Linked-right h (e ∷ es) fs stop (ne, at, l) = Linked-right h es fs stop l

pub absent-append :
    (a : ℕ) (es fs : List Entry) → absent a (es ++ fs) ≡ (absent a es && absent a fs)
absent-append a [] fs = refl
absent-append a (e ∷ es) fs = ground (arith, absent-append a es fs)

pub absent-last :
    (a : ℕ) (e : Entry) (es : List Entry) → absent a (e ∷ es) ≡ true → a ≢ last es e.addr
absent-last a e [] h = ground arith
absent-last a e (f ∷ es) h = absent-last a f es (ground arith)

-- The object of the last entry, and the list when its `next` is set to `a`.
pub Linked-relink :
    (h : Cells) (e : Entry) (es : List Entry) (stop a : ℕ)
    → Linked h (e ∷ es) stop
    → distinct (e ∷ es) ≡ true
    → (o : Object) × (last es e.addr ≢ 0)
      × (h (last es e.addr) ≡ some o)
      × Linked (write h (last es e.addr) (some (record o { next = a }))) (e ∷ es) a
Linked-relink h e [] stop a (ne, at, l) d = (object e stop, ne, at, (ne, write_self h e.addr _, tt))
Linked-relink h e (f ∷ es) stop a (ne, at, l) d =
    let (o, ne', at', l') =
      Linked-relink h f es stop a l (and_right (absent e.addr (f ∷ es)) _ d) in
    (
      o,
      ne',
      at',
      (
        ne,
        write_ne h _ e.addr _ (absent-last e.addr f es (and_left _ (distinct (f ∷ es)) d)) ∙ at,
        l',
      ),
    )

pub distinct-append :
    (es : List Entry) (x : Entry)
    → distinct es ≡ true
    → absent x.addr es ≡ true
    → distinct (es ++ x ∷ []) ≡ true
distinct-append [] x d a = refl
distinct-append (e ∷ es) x d a =
    ground (arith, distinct-append es x, absent-append e.addr es (x ∷ []))

pub distinct-right : (es fs : List Entry) → distinct (es ++ fs) ≡ true → distinct fs ≡ true
distinct-right [] fs d = d
distinct-right (e ∷ es) fs d = distinct-right es fs (ground arith)

pub distinct-left : (es fs : List Entry) → distinct (es ++ fs) ≡ true → distinct es ≡ true
distinct-left [] fs d = refl
distinct-left (e ∷ es) fs d = ground (arith, distinct-left es fs, absent-append e.addr es fs)

pub distinct-last :
    (e : Entry) (es fs : List Entry)
    → distinct ((e ∷ es) ++ fs) ≡ true
    → absent (last es e.addr) fs ≡ true
distinct-last e [] fs d = ground arith
distinct-last e (f ∷ es) fs d = distinct-last f es fs (ground arith)

-- An entry behind others is none of them.
pub distinct-middle :
    (es : List Entry) (x : Entry) (fs : List Entry)
    → distinct (es ++ x ∷ fs) ≡ true
    → (absent x.addr es ≡ true) × (absent x.addr fs ≡ true) × (distinct (es ++ fs) ≡ true)
distinct-middle [] x fs d = (refl, ground arith, ground arith)
distinct-middle (e ∷ es) x fs d =
    let (a, b, c) = distinct-middle es x fs (ground arith) in
    (
      ground (arith, absent-append e.addr es (x ∷ fs)),
      b,
      ground (arith, absent-append e.addr es (x ∷ fs), absent-append e.addr es fs),
    )

pub total-append : (es fs : List Entry) → total (es ++ fs) ≡ total es + total fs
total-append [] fs = omega arith
total-append (e ∷ es) fs = omega (arith, total-append es fs)

pub last-append : (es fs : List Entry) (a : ℕ) → last (es ++ fs) a ≡ last fs (last es a)
last-append [] fs a = refl
last-append (e ∷ es) fs a = last-append es fs e.addr

-- The queue in the middle of `cacheAdd`, when the size counts `n` bytes that are not linked yet.
pub record IsPending (c : Cache) (es : List Entry) (n : ℕ) : Type 0 where
  pub linked : Linked c.cell es 0
  pub head : c.head ≡ first es 0
  pub tail : c.tail ≡ last es c.tail
  pub apart : distinct es ≡ true
  pub size : c.size ≡ total es + n
