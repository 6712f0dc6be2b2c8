-- ===== src/RangeSet/Add.antt =====
-- Lab5/mdriver.c: `add_range` on a set of ranges whose list runs through all of them.
use model_lib.Prelude.{
  ℕ, ◌<◌, ◌≤◌, ◌≡◌, ◌≢◌, refl, sym, ◌∙◌, ap, Option, none, some, List, [], ◌∷◌, ◌++◌, arith, true,
}
use model_lib.Prelude.Int.{ℤ}
use model_lib.SplayTree.{Tree, tree_insert}
use model_lib.SplayTree.Order.{
  Above, Below, Above-append, Above-left, Above-right, Ascending-Below, Below-append, Below-trans,
}
use model_lib.SplayTree.Insert.{Holds, tree_insert-between}
use model_lib.RangeSet.{Range, RangeSet, accepted, set_range, set_next, set_prev, link_range}
use model_lib.RangeSet.Chain.{
  Chain, Unused, Distinct, Apart, AgreeOff, Tracks, Chain-agree, Chain-prev, Chain-prefix,
  Unused-left, Unused-right, Unused-append, Distinct-Separate, Distinct-right, Separate-cons,
  set_prev-other, set_next-hi, set_prev-hi, set_range-same, set_range-other,
}
use mathlib.Core.Path.{subst}
use mathlib.Core.List.{append_assoc}

module _ (rs : ℕ → Range) (p q : ℕ) (new : Range) where
  -- The memory after the range `p` has been put behind the range `q`.
  abbrev inserted : ℕ → Range
  inserted = set_range (set_prev (set_next rs (some q) (some p)) (rs q).next (some p)) p new

  module _ (h : p ≢ q) (k : ℕ) (ys : List (ℕ × ℕ)) (u : Unused q ys)
      (c : Chain rs (rs q).next (some q) ys) where
    inserted-q : inserted q ≡ (let r = rs q in record r { next = some p })
    inserted-q =
        set_range-other (set_prev (set_next rs (some q) (some p)) (rs q).next (some p)) p new q h
        ∙ set_prev-other rs (set_next rs (some q) (some p)) (rs q).next (some q) (some p) ys q c u
        ∙ set_range-same rs q (let r = rs q in record r { next = some p })

    inserted-AgreeOff : AgreeOff ((new.lo, p) ∷ (k, q) ∷ ys) rs inserted
    inserted-AgreeOff x w =
        set_range-other (set_prev (set_next rs (some q) (some p)) (rs q).next (some p)) p new x
          (λ e. w.0 (sym e))
        ∙ set_prev-other rs (set_next rs (some q) (some p)) (rs q).next (some q) (some p) ys x c
            w.1.1
        ∙ set_range-other rs q (let r = rs q in record r { next = some p }) x (λ e. w.1.0 (sym e))

    inserted-Chain : Distinct ys → Unused p ys → Chain inserted (rs q).next (some p) ys
    inserted-Chain d v =
        Chain-agree (set_prev (set_next rs (some q) (some p)) (rs q).next (some p)) inserted p
          (rs q).next (some p) ys
          (set_range-other (set_prev (set_next rs (some q) (some p)) (rs q).next (some p)) p new) v
          (Chain-prev (set_next rs (some q) (some p)) (rs q).next (some q) ys (some p) d (
            Chain-agree rs (set_next rs (some q) (some p)) q (rs q).next (some q) ys
              (set_range-other rs q (let r = rs q in record r { next = some p })) u c))

    inserted-all :
        (link before : Option ℕ) (xs : List (ℕ × ℕ))
        → Distinct (xs ++ (k, q) ∷ ys)
        → Unused p (xs ++ (k, q) ∷ ys)
        → new.prev ≡ some q
        → new.next ≡ (rs q).next
        → Chain rs link before (xs ++ (k, q) ∷ ys)
        → Chain inserted link before (xs ++ (k, q) ∷ (new.lo, p) ∷ ys)
    inserted-all link before xs d v e e' full =
        Chain-prefix rs inserted link before ((new.lo, p) ∷ (k, q) ∷ ys) xs ((k, q) ∷ ys)
          ((k, q) ∷ (new.lo, p) ∷ ys)
          (Separate-cons xs (new.lo, p) ((k, q) ∷ ys) (Unused-left p xs ((k, q) ∷ ys) v)
            (Distinct-Separate xs ((k, q) ∷ ys) d))
          inserted-AgreeOff
          (λ l b t.
            rw
              (
                inserted-q,
                set_range-same (set_prev (set_next rs (some q) (some p)) (rs q).next (some p)) p
                    new,
              )
              (
                t.0,
                t.1,
                t.2,
                (
                  refl,
                  e,
                  refl,
                  rw e' (
                      inserted-Chain (Distinct-right xs ((k, q) ∷ ys) d).1
                        (Unused-right p xs ((k, q) ∷ ys) v).1),
                ),
              ))
          full

  -- The ends of the other ranges stay.
  inserted-hi : (x : ℕ) → p ≢ x → (inserted x).hi ≡ (rs x).hi
  inserted-hi x w =
      ap (λ (r : Range). r.hi)
        (set_range-other (set_prev (set_next rs (some q) (some p)) (rs q).next (some p)) p new x w)
      ∙ set_prev-hi (set_next rs (some q) (some p)) (rs q).next (some p) x
      ∙ set_next-hi rs (some q) (some p) x

Distinct-insert :
    (xs : List (ℕ × ℕ)) (e : ℕ × ℕ) (ys : List (ℕ × ℕ))
    → Unused e.1 (xs ++ ys)
    → Distinct (xs ++ ys)
    → Distinct (xs ++ e ∷ ys)
Distinct-insert [] e ys u d = (u, d)
Distinct-insert (x ∷ xs) e ys u d = (
  Unused-append x.1 xs (e ∷ ys) (Unused-left x.1 xs ys d.0)
      (λ h. u.0 (sym h), Unused-right x.1 xs ys d.0),
  Distinct-insert xs e ys u.1 d.1,
)

Above-equal : (m n : ℕ) (es : List (ℕ × ℕ)) → m ≡ n → Above n es → Above m es
Above-equal m n es e a = rw e a

Apart-same :
    (rs rs' : ℕ → Range) (p : ℕ) (es : List (ℕ × ℕ))
    → ((x : ℕ) → p ≢ x → (rs' x).hi ≡ (rs x).hi)
    → Unused p es
    → Apart rs es
    → Apart rs' es
Apart-same rs rs' p [] same u a = tt
Apart-same rs rs' p (e ∷ es) same u a = (
  rw (same e.1 u.0) a.0,
  Above-equal (rs' e.1).hi (rs e.1).hi es (same e.1 u.0) a.1,
  Apart-same rs rs' p es same u.1 a.2,
)

Apart-insert :
    (rs rs' : ℕ → Range) (xs : List (ℕ × ℕ)) (e : ℕ × ℕ) (first p : ℕ) (ys : List (ℕ × ℕ))
    → ((x : ℕ) → p ≢ x → (rs' x).hi ≡ (rs x).hi)
    → Unused p (xs ++ e ∷ ys)
    → e.0 ≤ first
    → (rs e.1).hi < first
    → first ≤ (rs' p).hi
    → Above (rs' p).hi ys
    → Apart rs (xs ++ e ∷ ys)
    → Apart rs' (xs ++ e ∷ (first, p) ∷ ys)
Apart-insert rs rs' [] e first p ys same u le h h' ab a =
    let ends = same e.1 u.0 in
    (
      rw ends a.0,
      (rw ends h, Above-equal (rs' e.1).hi (rs e.1).hi ys ends a.1),
      (h', ab, Apart-same rs rs' p ys same u.1 a.2),
    )
Apart-insert rs rs' (x ∷ xs) e first p ys same u le h h' ab a =
    let hi = (rs x.1).hi in
    let later = Above-right hi xs (e ∷ ys) a.1 in
    (
      rw (same x.1 u.0) a.0,
      Above-equal (rs' x.1).hi hi (xs ++ e ∷ (first, p) ∷ ys) (same x.1 u.0) (
          Above-append hi xs (e ∷ (first, p) ∷ ys) (Above-left hi xs (e ∷ ys) a.1)
            (later.0, (omega (arith, later.0, le), later.1))),
      Apart-insert rs rs' xs e first p ys same u.1 le h h' ab a.2,
    )

-- The whole insertion behind the range `e`.
module _ (s : RangeSet) (xs : List (ℕ × ℕ)) (e : ℕ × ℕ) (ys : List (ℕ × ℕ)) (p first last : ℕ)
    (number : ℤ) where
  abbrev es : List (ℕ × ℕ)
  es = xs ++ e ∷ ys

  abbrev es' : List (ℕ × ℕ)
  es' = xs ++ e ∷ (first, p) ∷ ys

  abbrev new : Range
  new = record {
    lo = first;
    hi = last;
    index = number;
    next = (s.ranges e.1).next;
    prev = some e.1;
  }

  pub Chain-end :
      (rs : ℕ → Range) (link before : Option ℕ) (zs : List (ℕ × ℕ))
      → Chain rs link before (zs ++ e ∷ ys)
      → Chain rs (rs e.1).next (some e.1) ys
  Chain-end rs link before [] c = c.3
  Chain-end rs link before (z ∷ zs) c = Chain-end rs (rs z.1).next (some z.1) zs c.3

  link_range-run :
      (t' : Tree ℕ)
      → tree_insert true s.lo_tree first p ≡ some (t', true)
      → link_range s p (some e.1) (s.ranges e.1).next first last number
        ≡ accepted (record { list = s.list; lo_tree = t'; ranges = inserted s.ranges p e.1 new })
  unfolding link_range
  link_range-run t' h = rw (h, link_range) refl

  pub link_range-Tracks :
      Tracks s es
      → Unused p es
      → e.0 ≤ (s.ranges e.1).hi
      → (s.ranges e.1).hi < first
      → first ≤ last
      → Above first ys
      → Above last ys
      → (s' : RangeSet) × (link_range s p (some e.1) (s.ranges e.1).next first last number
          ≡ accepted s')
        × Tracks s' es'
        × ((s'.ranges p).hi ≡ last)
  link_range-Tracks h u ordered less le above above' =
      let apart = (Unused-right p xs (e ∷ ys) u).0 in
      let end = Chain-end s.ranges s.list none xs h.1 in
      let unused = (Distinct-right xs (e ∷ ys) h.2).0 in
      let split : es ≡ (xs ++ e ∷ []) ++ ys = simp append_assoc in
      let joined : es' ≡ (xs ++ e ∷ []) ++ (first, p) ∷ ys = simp append_assoc in
      let b : Below e.0 xs = Ascending-Below xs e ys h.0.1 in
      let bound =
        Below-append first xs (e ∷ []) (Below-trans e.0 first xs (omega (arith, ordered, less)) b)
          (omega (arith, ordered, less), tt) in
      let added =
        tree_insert-between s.lo_tree first p (xs ++ e ∷ []) ys
          (subst (λ l. Holds s.lo_tree l) split h.0) bound above in
      let same =
        set_range-same
          (set_prev (set_next s.ranges (some e.1) (some p)) (s.ranges e.1).next (some p)) p new in
      (
        record { list = s.list; lo_tree = added.0; ranges = inserted s.ranges p e.1 new },
        link_range-run added.0 added.1,
        (
          subst (λ l. Holds added.0 l) (sym joined) added.2,
          inserted-all s.ranges p e.1 new apart e.0 ys unused end s.list none xs h.2 u refl refl
              h.1,
          subst (λ l. Distinct l) (sym joined)
              (Distinct-insert (xs ++ e ∷ []) (first, p) ys (subst (λ l. Unused p l) split u)
                (subst (λ l. Distinct l) split h.2)),
          Apart-insert s.ranges (inserted s.ranges p e.1 new) xs e first p ys
              (inserted-hi s.ranges p e.1 new) u (omega (arith, ordered, less)) less (rw same le)
              (rw same above') h.3,
        ),
        rw same refl,
      )
