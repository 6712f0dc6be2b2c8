-- ===== src/ProxyCache/Find.antt =====
-- `cacheFind` of Lab6/proxy.c.
use model_lib.Prelude.{
  ℕ, zero, suc, ◌<◌, ◌≡◌, refl, false, List, [], ◌∷◌, arith, ◌==◌, if◌then◌else◌, length,
  Bool-cases, inl, inr,
}
use model_lib.Parse.{Text, same_text}
use model_lib.ProxyCache.{Cells, Cache, ok, find_loop, cache_find}
use model_lib.ProxyCache.Queue.{Entry, first, Linked, IsQueue, load-ok}

-- The address of the first entry with the key, or 0.
unfoldable pub address_of : Text → List Entry → ℕ
address_of key [] = 0
address_of key (e ∷ es) = if same_text e.key key then e.addr else address_of key es

pub find_loop-address_of :
    (f : ℕ) (h : Cells) (key : Text) (es : List Entry)
    → length es < f
    → Linked h es 0
    → find_loop f h key (first es 0) ≡ ok (address_of key es)
unfolding find_loop address_of
find_loop-address_of zero h key es le l = absurd (omega arith)
find_loop-address_of (suc f) h key [] le l = refl
find_loop-address_of (suc f) h key (e ∷ es) le (ne, at, l) =
    let miss : (e.addr == 0) ≡ false = ground arith in
    rw (miss, load-ok h e.addr ne at)
      (elim (Bool-cases (same_text e.key key)) [
        | inl hit ↦ rw hit
        | inr other ↦ rw other (find_loop-address_of f h key es (omega arith) l)
      ])

-- With more fuel than entries, `cacheFind` on a queue gives the first object with the key, or NULL
-- if there is none, and reads through no bad pointer.
pub cache_find-address_of :
    (f : ℕ) (c : Cache) (key : Text) (es : List Entry)
    → length es < f
    → IsQueue c es
    → cache_find f c key ≡ ok (address_of key es)
unfolding cache_find
cache_find-address_of f c key es le q =
    rw (q.head) (find_loop-address_of f c.cell key es le q.linked)
