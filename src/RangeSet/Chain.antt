-- ===== src/RangeSet/Chain.antt =====
-- Lab5/mdriver.c: the doubly linked list of ranges, against the entries of the tree: the address of a range
-- with its pointer, by ascending address.
use model_lib.Prelude.{ℕ, ◌≤◌, ◌≡◌, ◌≢◌, refl, sym, Option, none, some, List, [], ◌∷◌, ◌++◌, arith}
use mathlib.Core.Path.{subst}
use model_lib.SplayTree.Insert.{Holds}
use model_lib.SplayTree.Order.{Above}
use model_lib.RangeSet.{Range, RangeSet, set_range, set_next, set_prev}

-- From `link` on the list holds these ranges, and the first has the previous range `before`.
abbrev pub Chain : (ℕ → Range) → Option ℕ → Option ℕ → List (ℕ × ℕ) → Type 0
Chain rs link before [] = link ≡ none
Chain rs link before (e ∷ es) =
    (link ≡ some e.1)
    × ((rs e.1).prev ≡ before)
    × ((rs e.1).lo ≡ e.0)
    × Chain rs (rs e.1).next (some e.1) es

-- The pointer is none of the ranges'.
abbrev pub Unused : ℕ → List (ℕ × ℕ) → Type 0
Unused p [] = Unit
Unused p (e ∷ es) = (p ≢ e.1) × Unused p es

abbrev pub Distinct : List (ℕ × ℕ) → Type 0
Distinct [] = Unit
Distinct (e ∷ es) = Unused e.1 es × Distinct es

-- No pointer is in both lists.
abbrev pub Separate : (xs ys : List (ℕ × ℕ)) → Type 0
Separate [] ys = Unit
Separate (x ∷ xs) ys = Unused x.1 ys × Separate xs ys

-- Each range ends before the later ones begin.
abbrev pub Apart : (ℕ → Range) → List (ℕ × ℕ) → Type 0
Apart rs [] = Unit
Apart rs (e ∷ es) = (e.0 ≤ (rs e.1).hi) × Above (rs e.1).hi es × Apart rs es

pub set_range-same : (rs : ℕ → Range) (p : ℕ) (r : Range) → set_range rs p r p ≡ r
set_range-same rs p r = ground arith

pub set_range-other :
    (rs : ℕ → Range) (p : ℕ) (r : Range) (q : ℕ) → p ≢ q → set_range rs p r q ≡ rs q
set_range-other rs p r q h = ground arith

-- Two memories that differ at `p` only.
abbrev pub AgreeBut : ℕ → (rs rs' : ℕ → Range) → Type 0
AgreeBut p rs rs' = (q : ℕ) → p ≢ q → rs' q ≡ rs q

pub Chain-agree :
    (rs rs' : ℕ → Range) (p : ℕ) (link before : Option ℕ) (es : List (ℕ × ℕ))
    → AgreeBut p rs rs'
    → Unused p es
    → Chain rs link before es
    → Chain rs' link before es
Chain-agree rs rs' p link before [] a u c = c
Chain-agree rs rs' p link before (e ∷ es) a u c =
    rw (a e.1 u.0) (c.0, c.1, c.2, Chain-agree rs rs' p (rs e.1).next (some e.1) es a u.1 c.3)

-- The first range with another one before it.
pub Chain-prev :
    (rs : ℕ → Range) (link before : Option ℕ) (es : List (ℕ × ℕ)) (before' : Option ℕ)
    → Distinct es
    → Chain rs link before es
    → Chain (set_prev rs link before') link before' es
Chain-prev rs link before [] before' d c = c
Chain-prev rs link before (e ∷ es) before' d c =
    let r' = (let r = rs e.1 in record r { prev = before' }) in
    subst (λ l. Chain (set_prev rs l before') l before' (e ∷ es)) (sym c.0)
      (rw (set_range-same rs e.1 r') (
        refl,
        refl,
        c.2,
        Chain-agree rs (set_range rs e.1 r') e.1 (rs e.1).next (some e.1) es
            (set_range-other rs e.1 r') d.0 c.3,
      ))

-- Two memories that differ at these ranges only.
abbrev pub AgreeOff : List (ℕ × ℕ) → (rs rs' : ℕ → Range) → Type 0
AgreeOff es rs rs' = (q : ℕ) → Unused q es → rs' q ≡ rs q

-- A change behind the ranges `xs`.
pub Chain-prefix :
    (rs rs' : ℕ → Range) (link before : Option ℕ) (changed xs zs zs' : List (ℕ × ℕ))
    → Separate xs changed
    → AgreeOff changed rs rs'
    → ((l b : Option ℕ) → Chain rs l b zs → Chain rs' l b zs')
    → Chain rs link before (xs ++ zs)
    → Chain rs' link before (xs ++ zs')
Chain-prefix rs rs' link before changed [] zs zs' s a f c = f link before c
Chain-prefix rs rs' link before changed (x ∷ xs) zs zs' s a f c =
    rw (a x.1 s.0)
      (c.0, c.1, c.2, Chain-prefix rs rs' (rs x.1).next (some x.1) changed xs zs zs' s.1 a f c.3)

pub Unused-left : (p : ℕ) (xs ys : List (ℕ × ℕ)) → Unused p (xs ++ ys) → Unused p xs
Unused-left p [] ys u = tt
Unused-left p (x ∷ xs) ys u = (u.0, Unused-left p xs ys u.1)

pub Unused-right : (p : ℕ) (xs ys : List (ℕ × ℕ)) → Unused p (xs ++ ys) → Unused p ys
Unused-right p [] ys u = u
Unused-right p (x ∷ xs) ys u = Unused-right p xs ys u.1

pub Unused-append : (p : ℕ) (xs ys : List (ℕ × ℕ)) → Unused p xs → Unused p ys → Unused p (xs ++ ys)
Unused-append p [] ys u v = v
Unused-append p (x ∷ xs) ys u v = (u.0, Unused-append p xs ys u.1 v)

pub Distinct-Separate : (xs ys : List (ℕ × ℕ)) → Distinct (xs ++ ys) → Separate xs ys
Distinct-Separate [] ys d = tt
Distinct-Separate (x ∷ xs) ys d = (Unused-right x.1 xs ys d.0, Distinct-Separate xs ys d.1)

pub Distinct-right : (xs ys : List (ℕ × ℕ)) → Distinct (xs ++ ys) → Distinct ys
Distinct-right [] ys d = d
Distinct-right (x ∷ xs) ys d = Distinct-right xs ys d.1

pub Separate-cons :
    (xs : List (ℕ × ℕ)) (e : ℕ × ℕ) (ys : List (ℕ × ℕ))
    → Unused e.1 xs
    → Separate xs ys
    → Separate xs (e ∷ ys)
Separate-cons [] e ys u s = tt
Separate-cons (x ∷ xs) e ys u s = ((λ h. u.0 (sym h), s.0), Separate-cons xs e ys u.1 s.1)

-- The range after these has another pointer.
pub set_prev-other :
    (rs rs' : ℕ → Range) (link before v : Option ℕ) (es : List (ℕ × ℕ)) (q : ℕ)
    → Chain rs link before es
    → Unused q es
    → set_prev rs' link v q ≡ rs' q
set_prev-other rs rs' link before v [] q c u = rw c refl
set_prev-other rs rs' link before v (e ∷ es) q c u =
    rw (c.0)
      (set_range-other rs' e.1 (let r = rs' e.1 in record r { prev = v }) q (λ h. u.0 (sym h)))

-- The set of ranges keeps these: the tree maps the address of each to its pointer, the list runs through all
-- of them by ascending address, and they do not overlap.
abbrev pub Tracks : RangeSet → List (ℕ × ℕ) → Type 0
Tracks s es = Holds s.lo_tree es × Chain s.ranges s.list none es × Distinct es × Apart s.ranges es

-- A write of a link keeps the ends of all ranges.
pub set_next-hi :
    (rs : ℕ → Range) (link v : Option ℕ) (q : ℕ) → (set_next rs link v q).hi ≡ (rs q).hi
set_next-hi rs none v q = refl
set_next-hi rs (some x) v q = ground arith

pub set_prev-hi :
    (rs : ℕ → Range) (link v : Option ℕ) (q : ℕ) → (set_prev rs link v q).hi ≡ (rs q).hi
set_prev-hi rs none v q = refl
set_prev-hi rs (some x) v q = ground arith
