-- ===== src/ProxyCache.antt =====
-- Lab6/proxy.c: the object cache of the proxy, a linked queue under the write lock. `cache.h` is not
-- in the repository; the fields of an object are those that the functions use. An address stands for
-- a pointer and 0 for NULL; a read of an address that holds no object is a fault.
pub mod Queue
pub mod Find
pub mod Touch
pub mod Lost
pub mod Evict
pub mod Add
use model_lib.Prelude.{
  ℕ, zero, suc, ◌+◌, ◌-◌, ◌*◌, ◌%◌, ◌^◌, Bool, true, false, Option, none, some, List, [], ◌∷◌, ltb,
  ◌==◌, if◌then◌else◌,
}
use model_lib.Parse.{Text, same_text}

pub record Object : Type 0 where
  pub key : Text
  pub value : Text
  pub len : ℕ
  pub next : ℕ

abbrev pub Cells : Type 0
Cells = ℕ → Option Object

-- The global variables, and the memory that they lead to.
pub record Cache : Type 0 where
  pub cell : Cells
  pub head : ℕ
  pub tail : ℕ
  pub size : ℕ

pub data Run {ℓ} (A : Type ℓ) : Type ℓ where
  ok : A → Run A
  fault : Run A
  out_of_fuel : Run A

infixl 5 ◌>>=◌
abbrev pub ◌>>=◌ {ℓ κ} : {A : Type ℓ} {B : Type κ} → Run A → (A → Run B) → Run B
ok a >>= f = f a
fault >>= f = fault
out_of_fuel >>= f = out_of_fuel

abbrev pub max_cache_size : ℕ
max_cache_size = 1024 * 1024

abbrev pub write : Cells → ℕ → Option Object → Cells
write h p x q = if p == q then x else h q

abbrev pub some_or_fault : Option Object → Run Object
some_or_fault none = fault
some_or_fault (some o) = ok o

-- `*p`
unfoldable pub load : Cells → ℕ → Run Object
load h p = if p == 0 then fault else some_or_fault (h p)

-- `p->next = q`
unfoldable pub set_next : Cells → ℕ → ℕ → Run Cells
set_next h p q = load h p >>= λ o. ok (write h p (some (record o { next = q })))

-- The loop of `cacheFind`.
unfoldable pub find_loop : ℕ → Cells → Text → ℕ → Run ℕ
find_loop zero h key p = out_of_fuel
find_loop (suc f) h key p =
    let visit = load h p >>= (λ o.
      let rest = find_loop f h key o.next in if same_text o.key key then ok p else rest) in
    if p == 0 then ok 0 else visit

unfoldable pub cache_find : ℕ → Cache → Text → Run ℕ
cache_find fuel c key = find_loop fuel c.cell key c.head

-- `cache_size -= len` on a `size_t`.
abbrev pub sub_size : ℕ → ℕ → ℕ
sub_size a b = (a + 2 ^ 64 - b) % 2 ^ 64

-- The loop of `evict`: `aggreg_size` is what has been freed.
unfoldable pub evict_loop : ℕ → ℕ → ℕ → Cache → Run Cache
evict_loop zero obj_size aggreg_size c = out_of_fuel
evict_loop (suc f) obj_size aggreg_size c =
    let drop_head = load c.cell c.head >>= (λ o.
      evict_loop f obj_size (aggreg_size + o.len) (record {
        cell = write c.cell c.head none;
        head = o.next;
        tail = c.tail;
        size = sub_size c.size o.len;
      })) in
    if ltb (aggreg_size + 1) obj_size then drop_head else ok c

unfoldable pub evict : ℕ → ℕ → Cache → Run Cache
evict fuel obj_size c = evict_loop fuel obj_size 0 c

-- `obj->next = NULL; cache_tail->next = obj; cache_tail = obj;`
unfoldable pub append_object : ℕ → Cache → Run Cache
append_object obj c = set_next c.cell obj 0 >>= λ h.
    set_next h c.tail obj >>= λ h'. ok (record c { cell = h'; tail = obj })

-- The end of `cacheAdd`: the object at `p` becomes the tail.
unfoldable pub link_object : ℕ → Cache → Run Cache
link_object p c =
    if c.head == 0
    then set_next c.cell p 0 >>= (λ h. ok (record c { cell = h; head = p; tail = p }))
    else append_object p c

-- The part of `cacheAdd` for a new key, with the object that `malloc` gave at `p`.
unfoldable pub insert_object : ℕ → ℕ → Text → Text → ℕ → Cache → Run Cache
insert_object fuel p key value len c =
    let object : Object = record { key = key; value = value; len = len; next = 0 } in
    let c' = record c { cell = write c.cell p (some object); size = (c.size + len) % 2 ^ 64 } in
    (if ltb max_cache_size c'.size then evict fuel len c' else ok c') >>= link_object p

unfoldable pub cache_add : ℕ → ℕ → Text → Text → ℕ → Cache → Run Cache
cache_add fuel p key value len c = cache_find fuel c key >>= λ found.
    if found == 0 then insert_object fuel p key value len c else ok c

-- `while (tmp->next != obj) tmp = tmp->next;`
unfoldable pub before_loop : ℕ → Cells → ℕ → ℕ → Run ℕ
before_loop zero h obj tmp = out_of_fuel
before_loop (suc f) h obj tmp = load h tmp >>= λ o.
    let rest = before_loop f h obj o.next in if o.next == obj then ok tmp else rest

-- `replace_tail` of an object that is not the head.
unfoldable pub unlink_object : ℕ → ℕ → Cache → Run Cache
unlink_object fuel obj c = before_loop fuel c.cell obj c.head >>= λ tmp. load c.cell obj >>= λ o.
    set_next c.cell tmp o.next >>= λ h. append_object obj (record c { cell = h })

unfoldable pub replace_tail : ℕ → ℕ → Cache → Run Cache
replace_tail fuel obj c =
    if obj == c.head
    then load c.cell c.head >>= (λ o. append_object obj (record c { head = o.next }))
    else unlink_object fuel obj c
