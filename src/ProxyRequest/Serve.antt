-- ===== src/ProxyRequest/Serve.antt =====
-- Lab6/proxy.c: two clients that ask for the same URI, one after the other.
use model_lib.Prelude.{
  ℕ, suc, ◌+◌, ◌<◌, ◌≤◌, ◌^◌, ◌≡◌, ◌≢◌, refl, sym, ◌∙◌, ap, List, [], ◌∷◌, ◌++◌, arith, bytes, ◌==◌,
  true, false, length, length-append, take, Bool-cases, inl, inr,
}
use model_lib.Prelude.Int.{pos}
use model_lib.Parse.{Text, same_text}
use model_lib.ProxyCache.{Cells, Cache, ok, cache_find, cache_add, replace_tail}
use model_lib.ProxyCache.Queue.{
  Entry, Linked, IsQueue, absent, total, load-ok, Linked-right, Linked-left,
}
use model_lib.ProxyCache.Find.{address_of, cache_find-address_of}
use model_lib.ProxyCache.Add.{cache_add-IsAdded, max_object_size}
use model_lib.ProxyCache.Touch.{Returns}
use model_lib.ProxyCache.Lost.{replace_tail-IsLost, replace_tail_only}
use model_lib.ProxyRequest.{
  Parser, request, Server, Request, Sent, Reply, served, returned, send_request, serve_hit,
  serve_miss, forward, proxy, not_implemented, Leftover,
}
use model_lib.ProxyRequest.Forward.{handled, joined, forward_loop-Forwards}
use mathlib.Core.Path.{subst}

same_text_self : (s : Text) → same_text s s ≡ true
same_text_self [] = refl
same_text_self (a ∷ s) = ground (arith, same_text_self s)

address_of-skip :
    (key : Text) (x : Entry) (es : List Entry)
    → x.addr ≢ 0
    → address_of key (x ∷ es) ≡ 0
    → (same_text x.key key ≡ false) × (address_of key es ≡ 0)
unfolding address_of
address_of-skip key x es ne e = elim (Bool-cases (same_text x.key key)) [
  | inl hit ↦ absurd (ne (ground (arith, hit, e)))
  | inr other ↦ (other, ground (arith, other, e))
]

-- A key that is not in the queue is in no part of it.
address_of-right :
    (h : Cells) (key : Text) (es fs : List Entry)
    → Linked h (es ++ fs) 0
    → address_of key (es ++ fs) ≡ 0
    → address_of key fs ≡ 0
unfolding address_of
address_of-right h key [] fs l e = e
address_of-right h key (x ∷ es) fs l e =
    address_of-right h key es fs l.2 (address_of-skip key x (es ++ fs) l.0 e).1

-- An entry behind others that have not its key.
address_of-last :
    (h : Cells) (es : List Entry) (x : Entry)
    → Linked h es x.addr
    → address_of x.key es ≡ 0
    → address_of x.key (es ++ x ∷ []) ≡ x.addr
unfolding address_of
address_of-last h [] x l e = rw (same_text_self x.key) refl
address_of-last h (y ∷ es) x l e =
    let other = address_of-skip x.key y es l.0 e in
    rw (other.0) (address_of-last h es x l.2 other.1)

-- The tail is found and moved to itself.
replace_tail-Returns :
    (f : ℕ) (c : Cache) (es : List Entry) (x : Entry)
    → length es < f
    → IsQueue c (es ++ x ∷ [])
    → Returns (λ c'. c'.size ≡ c.size) (replace_tail f x.addr c)
replace_tail-Returns f c [] x le q =
    let (c', run, h) = replace_tail_only f c x q in (c', run, h.1.size)
replace_tail-Returns f c (e ∷ es) x le q =
    let (c', run, h) = replace_tail-IsLost f c e es x (omega (arith, le)) q in (c', run, h.size)

take-all : (s : Text) → take (length s) s ≡ s
take-all [] = refl
take-all (c ∷ s) = ap (λ t. c ∷ t) (take-all s)

-- A hit on the object at the tail.
serve_hit-tail :
    (f : ℕ) (c : Cache) (es : List Entry) (x : Entry) (texts : List Text)
    → length es < f
    → IsQueue c (es ++ x ∷ [])
    → (c' : Cache) × (serve_hit f x.addr texts c
        ≡ ok (
            served (record {
              to_client = texts ++ take x.len x.value ∷ [];
              to_server = [];
              cache = c';
              closed = true;
            })))
unfolding serve_hit
serve_hit-tail f c es x texts le q =
    let (ne, at, _) = Linked-right c.cell es (x ∷ []) 0 q.linked in
    let (c', run, _) = replace_tail-Returns f c es x le q in
    (c', rw (load-ok c.cell x.addr ne at, run) refl)

module _ {ℓ} {P : Type ℓ} (parser : Parser P) (stale : Leftover) (f p : ℕ) (r : Request)
    (get : r.method ≡ bytes "GET") (first_line : r.state ≡ request) where
  -- A miss that reaches the server.
  proxy_miss :
      (server : Server) (lines : List Text) (start : P) (chunks : List (Text × Sent)) (c c' : Cache)
      (texts to_client : List Text) (n : ℕ)
      → cache_find f c r.uri ≡ ok 0
      → send_request parser stale server r.uri lines start ≡ (texts, returned (pos (suc n)))
      → forward f p r.uri chunks c ≡ ok (to_client, c')
      → proxy parser stale server f p r lines start chunks c
        ≡ ok (
            served (record { to_client = to_client; to_server = texts; cache = c'; closed = true }))
  unfolding proxy serve_miss
  proxy_miss server lines start chunks c c' texts to_client n find send fwd =
      rw (first_line, get, find, send, fwd) refl

  proxy_hit :
      (server : Server) (lines : List Text) (start : P) (chunks : List (Text × Sent)) (c : Cache)
      (obj : ℕ) (reply : Reply)
      → cache_find f c r.uri ≡ ok obj
      → obj ≢ 0
      → serve_hit f obj [] c ≡ ok reply
      → proxy parser stale server f p r lines start chunks c ≡ ok reply
  unfolding proxy
  proxy_hit server lines start chunks c obj reply find ne hit =
      let test : (obj == 0) ≡ false = ground (arith, ne) in rw (first_line, get, find, test) hit

-- A response that fits is added to the cache.
forward-cached :
    (f p : ℕ) (uri : Text) (chunks : List (Text × Sent)) (c c' : Cache)
    → length (joined (handled chunks)) ≤ max_object_size
    → cache_add f p uri (joined (handled chunks)) (length (joined (handled chunks))) c ≡ ok c'
    → forward f p uri chunks c ≡ ok (handled chunks, c')
unfolding forward
forward-cached f p uri chunks c c' fits run =
    let kept = forward_loop-Forwards chunks in
    rw (kept.0, (kept.1 fits).0, (kept.1 fits).1, run) refl

module _ {ℓ} {P : Type ℓ} (parser : Parser P) (stale : Leftover) (f p : ℕ) (r : Request)
    (server : Server) (lines : List Text) (start : P) (chunks : List (Text × Sent)) (c : Cache)
    (es : List Entry) (texts : List Text) (n : ℕ) where
  abbrev response : Text
  response = joined (handled chunks)

  -- On a well linked queue without the URI, with a new address for the object, more fuel than one
  -- more than the number of objects, and a total that cannot overflow by one more object: if a
  -- `GET` reaches the server, and the chunks of its response up to the first broken pipe have at
  -- most `MAX_OBJECT_SIZE` bytes in all, then the client gets these chunks, and the next `GET` of
  -- the URI gives them again in one piece, whatever the server would answer then, and sends the
  -- server nothing.
  pub proxy-later :
      r.method ≡ bytes "GET"
      → r.state ≡ request
      → IsQueue c es
      → length es + 1 < f
      → p ≢ 0
      → absent p es ≡ true
      → address_of r.uri es ≡ 0
      → total es + max_object_size < 2 ^ 64
      → length response ≤ max_object_size
      → send_request parser stale server r.uri lines start ≡ (texts, returned (pos (suc n)))
      → (p' : ℕ) (server' : Server) (lines' : List Text) (start' : P) (chunks' : List (Text × Sent))
      → (c' : Cache) × (c'' : Cache) × (proxy parser stale server f p r lines start chunks c
          ≡ ok (
              served (record {
                to_client = handled chunks;
                to_server = texts;
                cache = c';
                closed = true;
              })))
        × (proxy parser stale server' f p' r lines' start' chunks' c'
            ≡ ok (
                served (record {
                  to_client = response ∷ [];
                  to_server = [];
                  cache = c'';
                  closed = true;
                })))
  proxy-later get line q le ne out new small fits send p' server' lines' start' chunks' =
      let x : Entry = record { addr = p; key = r.uri; value = response; len = length response } in
      let (c', run, added) =
        cache_add-IsAdded f c es x q (omega (arith, le)) ne out fits (omega (arith, small, fits))
          new in
      let rest = added.rest in
      let linked = Linked-left c'.cell rest (x ∷ []) 0 added.queue.linked in
      let unknown =
        address_of-right c.cell r.uri added.dropped rest
          (subst (λ l. Linked c.cell l 0) added.split q.linked)
          (ap (address_of r.uri) (sym added.split) ∙ new) in
      let shorter : length rest + 1 < f =
        omega (arith, le, ap length added.split, length-append added.dropped rest) in
      let find =
        cache_find-address_of f c' r.uri (rest ++ x ∷ [])
          (omega (arith, shorter, length-append rest (x ∷ []))) added.queue
        ∙ ap ok (address_of-last c'.cell rest x linked unknown) in
      let (c'', hit) = serve_hit-tail f c' rest x [] (omega (arith, shorter)) added.queue in
      (
        c',
        c'',
        proxy_miss parser stale f p r get line server lines start chunks c c' texts (handled chunks)
            n (cache_find-address_of f c r.uri es (omega (arith, le)) q ∙ ap ok new) send
            (forward-cached f p r.uri chunks c c' fits run),
        proxy_hit parser stale f p' r get line server' lines' start' chunks' c' p _ find ne hit
            ∙ ap
                (λ t. ok (
                  served
                    (record { to_client = t ∷ []; to_server = []; cache = c''; closed = true })))
                (take-all response),
      )

-- A request with another method than `GET` that reaches the server for an object which is not in
-- the cache gets the error page and then the response as well.
pub proxy-other_method {ℓ} :
    {P : Type ℓ} (parser : Parser P) (stale : Leftover) (f p : ℕ) (r : Request) (server : Server)
    (lines : List Text) (start : P) (chunks : List (Text × Sent)) (c c' : Cache)
    (texts to_client : List Text) (n : ℕ)
    → same_text r.method (bytes "GET") ≡ false
    → r.state ≡ request
    → cache_find f c r.uri ≡ ok 0
    → send_request parser stale server r.uri lines start ≡ (texts, returned (pos (suc n)))
    → forward f p r.uri chunks c ≡ ok (to_client, c')
    → proxy parser stale server f p r lines start chunks c
      ≡ ok (
          served (record {
            to_client = not_implemented ++ to_client;
            to_server = texts;
            cache = c';
            closed = true;
          }))
unfolding proxy serve_miss
proxy-other_method parser stale f p r server lines start chunks c c' texts to_client n other line
      find send fwd =
    rw (line, other, find, send, fwd) refl
