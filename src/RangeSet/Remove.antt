-- ===== src/RangeSet/Remove.antt =====
-- Lab5/mdriver.c: `remove_range` on a set of ranges whose list runs through all of them.
use model_lib.Prelude.{
  ℕ, ◌≡◌, refl, sym, ◌∙◌, ap, Option, none, some, List, [], ◌∷◌, ◌++◌, ◌==◌, ◌⊎◌, inl, inr,
  Bool-cases, ==_iff,
}
use model_lib.SplayTree.{tree_remove}
use model_lib.SplayTree.Order.{Above, Above-append, Above-left, Above-right}
use model_lib.SplayTree.Sorted.{lookup, erase}
use model_lib.SplayTree.Insert.{Holds}
use model_lib.SplayTree.Remove.{tree_remove-erase}
use model_lib.RangeSet.{
  Range, RangeSet, set_next, set_prev, set_range, freed, list_after, remove_range,
}
use model_lib.RangeSet.Chain.{
  Chain, Unused, Distinct, Apart, AgreeBut, AgreeOff, Tracks, Chain-agree, Chain-prev, Chain-prefix,
  Unused-left, Unused-right, Unused-append, Distinct-Separate, Distinct-right, set_prev-other,
  set_next-hi, set_prev-hi, set_range-same, set_range-other,
}
use mathlib.Core.Path.{subst}
use mathlib.Core.List.{append_assoc}

-- The memory after the range `p` has been taken out, as the source computes it.
abbrev removed : (ℕ → Range) → ℕ → ℕ → Range
removed rs p = set_prev (set_next rs (rs p).prev (rs p).next) (rs p).next (rs p).prev

module _ (rs : ℕ → Range) (x k p : ℕ) (ys : List (ℕ × ℕ)) (e : (rs p).prev ≡ some x)
    (c : Chain rs (rs p).next (some p) ys) (u : Unused x ys) where
  removed_eq : removed rs p ≡ set_prev (set_next rs (some x) (rs p).next) (rs p).next (some x)
  removed_eq = rw e refl

  removed-x : removed rs p x ≡ (let r = rs x in record r { next = (rs p).next })
  removed-x =
      ap (λ (f : ℕ → Range). f x) removed_eq
      ∙ set_prev-other rs (set_next rs (some x) (rs p).next) (rs p).next (some p) (some x) ys x c u
      ∙ set_range-same rs x (let r = rs x in record r { next = (rs p).next })

  removed-AgreeOff : (k' : ℕ) → AgreeOff ((k', x) ∷ (k, p) ∷ ys) rs (removed rs p)
  removed-AgreeOff k' y w =
      ap (λ (f : ℕ → Range). f y) removed_eq
      ∙ set_prev-other rs (set_next rs (some x) (rs p).next) (rs p).next (some p) (some x) ys y c
          w.1.1
      ∙ set_range-other rs x (let r = rs x in record r { next = (rs p).next }) y (λ h. w.0 (sym h))

  removed-Chain : Distinct ys → Chain (removed rs p) (rs p).next (some x) ys
  removed-Chain d =
      subst (λ f. Chain f (rs p).next (some x) ys) (sym removed_eq)
        (Chain-prev (set_next rs (some x) (rs p).next) (rs p).next (some p) ys (some x) d (
          Chain-agree rs (set_next rs (some x) (rs p).next) x (rs p).next (some p) ys
            (set_range-other rs x (let r = rs x in record r { next = (rs p).next })) u c))

removed-hi : (rs : ℕ → Range) (p q : ℕ) → (removed rs p q).hi ≡ (rs q).hi
removed-hi rs p q =
    set_prev-hi (set_next rs (rs p).prev (rs p).next) (rs p).next (rs p).prev q
    ∙ set_next-hi rs (rs p).prev (rs p).next q

module _ (rs : ℕ → Range) (k p : ℕ) (ys : List (ℕ × ℕ)) where
  -- The links to the range that stands between these.
  Chain-links :
      (link before : Option ℕ) (xs : List (ℕ × ℕ)) (x : ℕ × ℕ)
      → Chain rs link before (xs ++ x ∷ (k, p) ∷ ys)
      → ((rs p).prev ≡ some x.1) × Chain rs (rs p).next (some p) ys
  Chain-links link before [] x c = (c.3.1, c.3.3)
  Chain-links link before (z ∷ zs) x c = Chain-links (rs z.1).next (some z.1) zs x c.3

  remove_behind-Chain :
      (link before : Option ℕ) (xs : List (ℕ × ℕ)) (x : ℕ × ℕ)
      → Distinct (xs ++ x ∷ (k, p) ∷ ys)
      → Chain rs link before (xs ++ x ∷ (k, p) ∷ ys)
      → Chain (removed rs p) link before (xs ++ x ∷ ys)
  remove_behind-Chain link before xs x d c =
      let links = Chain-links link before xs x c in
      let d' = Distinct-right xs (x ∷ (k, p) ∷ ys) d in
      Chain-prefix rs (removed rs p) link before (x ∷ (k, p) ∷ ys) xs (x ∷ (k, p) ∷ ys) (x ∷ ys)
        (Distinct-Separate xs (x ∷ (k, p) ∷ ys) d)
        (removed-AgreeOff rs x.1 k p ys links.0 links.1 d'.0.1 x.0)
        (λ l b t.
          rw (removed-x rs x.1 k p ys links.0 links.1 d'.0.1)
            (t.0, t.1, t.2, removed-Chain rs x.1 k p ys links.0 links.1 d'.0.1 d'.1.1))
        c

Distinct-remove :
    (xs : List (ℕ × ℕ)) (e : ℕ × ℕ) (ys : List (ℕ × ℕ))
    → Distinct (xs ++ e ∷ ys)
    → Distinct (xs ++ ys)
Distinct-remove [] e ys d = d.1
Distinct-remove (x ∷ xs) e ys d = (
  Unused-append x.1 xs ys (Unused-left x.1 xs (e ∷ ys) d.0) (Unused-right x.1 xs (e ∷ ys) d.0).1,
  Distinct-remove xs e ys d.1,
)

Apart-remove :
    (rs : ℕ → Range) (xs : List (ℕ × ℕ)) (e : ℕ × ℕ) (ys : List (ℕ × ℕ))
    → Apart rs (xs ++ e ∷ ys)
    → Apart rs (xs ++ ys)
Apart-remove rs [] e ys a = a.2
Apart-remove rs (x ∷ xs) e ys a =
    let hi = (rs x.1).hi in
    (
      a.0,
      Above-append hi xs ys (Above-left hi xs (e ∷ ys) a.1) (Above-right hi xs (e ∷ ys) a.1).1,
      Apart-remove rs xs e ys a.2,
    )

Apart-same :
    (rs rs' : ℕ → Range) (es : List (ℕ × ℕ))
    → ((q : ℕ) → (rs' q).hi ≡ (rs q).hi)
    → Apart rs es
    → Apart rs' es
Apart-same rs rs' [] same a = tt
Apart-same rs rs' (e ∷ es) same a =
    (rw (same e.1) a.0, subst (λ m. Above m es) (sym (same e.1)) a.1, Apart-same rs rs' es same a.2)

-- The pointer that is taken out is none of the others'.
Distinct-Unused :
    (xs : List (ℕ × ℕ)) (e : ℕ × ℕ) (ys : List (ℕ × ℕ))
    → Distinct (xs ++ e ∷ ys)
    → Unused e.1 (xs ++ ys)
Distinct-Unused [] e ys d = d.0
Distinct-Unused (x ∷ xs) e ys d =
    ((λ h. (Unused-right x.1 xs (e ∷ ys) d.0).0 (sym h)), Distinct-Unused xs e ys d.1)

Apart-agree :
    (rs rs' : ℕ → Range) (p : ℕ) (es : List (ℕ × ℕ))
    → AgreeBut p rs rs'
    → Unused p es
    → Apart rs es
    → Apart rs' es
Apart-agree rs rs' p [] f u a = tt
Apart-agree rs rs' p (e ∷ es) f u a = rw (f e.1 u.0) (a.0, a.1, Apart-agree rs rs' p es f u.1 a.2)

-- The key is missing, or its entry splits the list.
lookup-cases :
    (k : ℕ) (es : List (ℕ × ℕ))
    → ((lookup k es ≡ none) × (erase k es ≡ es))
      ⊎ ((xs : List (ℕ × ℕ)) × (p : ℕ) × (ys : List (ℕ × ℕ)) × (es ≡ xs ++ (k, p) ∷ ys)
          × (lookup k es ≡ some p)
          × (erase k es ≡ xs ++ ys))
lookup-cases k [] = inl (refl, refl)
lookup-cases k (e ∷ es) = elim (Bool-cases (k == e.0)) [
  | inl h ↦
      inr ([], e.1, es, ap (λ m. (m, e.1) ∷ es) (sym ((==_iff k e.0).0 h)), rw h refl, rw h refl)
  | inr h ↦ elim (lookup-cases k es) [
    | inl c ↦ inl (rw h c.0, rw h (ap (λ l. e ∷ l) c.1))
    | inr c ↦ inr (e ∷ c.0, c.1, c.2, ap (λ l. e ∷ l) c.3, rw h c.4, rw h (ap (λ l. e ∷ l) c.5))
  ]
]

-- The list is empty or has a last entry.
last-cases :
    (xs : List (ℕ × ℕ)) → (xs ≡ []) ⊎ ((ys : List (ℕ × ℕ)) × (y : ℕ × ℕ) × (xs ≡ ys ++ y ∷ []))
last-cases [] = inl refl
last-cases (x ∷ xs) = elim (last-cases xs) [
  | inl e ↦ inr ([], x, ap (λ l. x ∷ l) e)
  | inr e ↦ inr (x ∷ e.0, e.1, ap (λ l. x ∷ l) e.2)
]

removed-Chain_all :
    (rs : ℕ → Range) (link : Option ℕ) (xs : List (ℕ × ℕ)) (k p : ℕ) (ys : List (ℕ × ℕ))
    → Distinct (xs ++ (k, p) ∷ ys)
    → Chain rs link none (xs ++ (k, p) ∷ ys)
    → Chain (removed rs p) (list_after link (rs p).prev (rs p).next) none (xs ++ ys)
removed-Chain_all rs link xs k p ys d c = elim (last-cases xs) [
  | inl e ↦
      subst (λ l. Chain (removed rs p) (list_after link (rs p).prev (rs p).next) none (l ++ ys))
        (sym e)
        (let c' : Chain rs link none ((k, p) ∷ ys) =
            subst (λ l. Chain rs link none (l ++ (k, p) ∷ ys)) e c in
          subst
            (λ b.
              Chain (set_prev (set_next rs b (rs p).next) (rs p).next b)
                (list_after link b (rs p).next) none ys)
            (sym c'.1)
            (Chain-prev rs (rs p).next (some p) ys none (Distinct-right xs ((k, p) ∷ ys) d).1 c'.3))
  | inr e ↦
      let before : xs ++ (k, p) ∷ ys ≡ e.0 ++ e.1 ∷ (k, p) ∷ ys =
        rw (e.2) (append_assoc e.0 (e.1 ∷ []) ((k, p) ∷ ys)) in
      let after : xs ++ ys ≡ e.0 ++ e.1 ∷ ys = rw (e.2) (append_assoc e.0 (e.1 ∷ []) ys) in
      let c' = subst (λ l. Chain rs link none l) before c in
      subst (λ b. Chain (removed rs p) (list_after link b (rs p).next) none (xs ++ ys))
        (sym (Chain-links rs k p ys link none e.0 e.1 c').0)
        (subst (λ l. Chain (removed rs p) link none l) (sym after)
          (remove_behind-Chain rs k p ys link none e.0 e.1 (subst (λ l. Distinct l) before d) c'))
]

remove_range-found :
    (s : RangeSet) (first p : ℕ)
    → (tree_remove s.lo_tree first).1 ≡ some p
    → remove_range s first ≡ record {
      list = list_after s.list (s.ranges p).prev (s.ranges p).next;
      lo_tree = (tree_remove s.lo_tree first).0;
      ranges = set_range (removed s.ranges p) p freed;
    }
unfolding remove_range
remove_range-found s first p h = rw (h, remove_range) refl

remove_range-missing :
    (s : RangeSet) (first : ℕ)
    → (tree_remove s.lo_tree first).1 ≡ none
    → remove_range s first ≡ record s { lo_tree = (tree_remove s.lo_tree first).0 }
unfolding remove_range
remove_range-missing s first h = rw (h, remove_range) refl

-- On a set whose list runs through all its ranges, `remove_range` takes the range that begins at
-- the address out of the tree and of the list, and changes neither where there is none; the other
-- ranges stay linked, in order and apart.
pub remove_range-Tracks :
    (s : RangeSet) (first : ℕ) (es : List (ℕ × ℕ))
    → Tracks s es
    → Tracks (remove_range s first) (erase first es)
remove_range-Tracks s first es h =
    let gone = tree_remove-erase s.lo_tree first es h.0 in
    let t = (tree_remove s.lo_tree first).0 in
    elim (lookup-cases first es) [
      | inl c ↦
          subst (λ s'. Tracks s' (erase first es))
            (sym (remove_range-missing s first (gone.0 ∙ c.0)))
            (subst (λ l. Holds t l × Chain s.ranges s.list none l × Distinct l × Apart s.ranges l)
              (sym c.1) (subst (λ l. Holds t l) c.1 gone.1, h.1, h.2, h.3))
      | inr c ↦
          let d = subst (λ l. Distinct l) c.3 h.2 in
          let unused = Distinct-Unused c.0 (first, c.1) c.2 d in
          let apart = set_range-other (removed s.ranges c.1) c.1 freed in
          subst (λ s'. Tracks s' (erase first es))
            (sym (remove_range-found s first c.1 (gone.0 ∙ c.4)))
            (
              gone.1,
              subst
                  (λ l.
                    Chain (set_range (removed s.ranges c.1) c.1 freed)
                      (list_after s.list (s.ranges c.1).prev (s.ranges c.1).next) none l)
                  (sym c.5)
                  (Chain-agree (removed s.ranges c.1) (set_range (removed s.ranges c.1) c.1 freed)
                    c.1 (list_after s.list (s.ranges c.1).prev (s.ranges c.1).next) none
                    (c.0 ++ c.2) apart unused
                    (removed-Chain_all s.ranges s.list c.0 first c.1 c.2 d
                      (subst (λ l. Chain s.ranges s.list none l) c.3 h.1))),
              subst (λ l. Distinct l) (sym c.5) (Distinct-remove c.0 (first, c.1) c.2 d),
              subst (λ l. Apart (set_range (removed s.ranges c.1) c.1 freed) l) (sym c.5)
                  (Apart-agree (removed s.ranges c.1) (set_range (removed s.ranges c.1) c.1 freed)
                    c.1 (c.0 ++ c.2) apart unused
                    (Apart-same s.ranges (removed s.ranges c.1) (c.0 ++ c.2)
                      (removed-hi s.ranges c.1)
                      (Apart-remove s.ranges c.0 (first, c.1) c.2
                        (subst (λ l. Apart s.ranges l) c.3 h.3)))),
            )
    ]
