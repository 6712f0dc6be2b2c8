-- ===== src/ProxyRequest/Forward.antt =====
-- Lab6/proxy.c: what `forward` sends to the client and keeps of a response.
use model_lib.Prelude.{
  ◌+◌, ◌<◌, ◌≤◌, ◌≡◌, inl, inr, refl, sym, ap, List, [], ◌∷◌, ◌++◌, arith, if◌then◌else◌, Bool,
  true, false, ltb, length, length-append, Bool-cases, ltb→lt,
}
use model_lib.Parse.{Text}
use model_lib.ProxyRequest.{Sent, is_broken, Forwarded, forward_loop}
use model_lib.ProxyCache.Add.{max_object_size}
use mathlib.Core.List.{append_assoc, append-nil}

-- The chunks up to the first one that meets a broken pipe, which belongs to them.
abbrev pub handled : List (Text × Sent) → List Text
handled [] = []
handled ((chunk, sent) ∷ chunks) = if is_broken sent then chunk ∷ [] else chunk ∷ handled chunks

abbrev pub joined : List Text → Text
joined [] = []
joined (t ∷ ts) = t ++ joined ts

-- What `forward` has kept after the texts `ts` in a buffer with `obj`.
abbrev pub Kept : Text → List Text → Forwarded → Type 0
Kept obj ts f =
    (f.to_client ≡ ts)
    × ((length (obj ++ joined ts) ≤ max_object_size)
        → (f.fits_in_cache ≡ true) × (f.web_obj ≡ obj ++ joined ts))
    × ((max_object_size < length (obj ++ joined ts)) → f.fits_in_cache ≡ false)

-- A round with the chunk, before `rest`.
abbrev step : Text → Bool → Forwarded → (obj : Text) → (fits : Bool) → Forwarded
step chunk broken rest obj fits =
    if broken
    then record { to_client = chunk ∷ []; web_obj = obj; fits_in_cache = fits }
    else record rest { to_client = chunk ∷ rest.to_client }

step-false :
    (chunk : Text) (broken : Bool) (rest : Forwarded) (obj : Text) (ts : List Text)
    → (rest.fits_in_cache ≡ false) × (rest.to_client ≡ ts)
    → ((step chunk broken rest obj false).fits_in_cache ≡ false)
      × ((step chunk broken rest obj false).to_client ≡ (if broken then chunk ∷ [] else chunk ∷ ts))
step-false chunk true rest obj ts h = (refl, refl)
step-false chunk false rest obj ts h = (h.0, ap (λ l. chunk ∷ l) h.1)

over :
    (obj chunk later : Text)
    → max_object_size < length obj + length chunk
    → max_object_size < length (obj ++ (chunk ++ later))
over obj chunk later h =
    rw (length-append obj (chunk ++ later), length-append chunk later) (omega (arith, h))

step-large :
    (chunk : Text) (broken : Bool) (rest : Forwarded) (obj : Text) (ts : List Text)
    → max_object_size < length obj + length chunk
    → (rest.fits_in_cache ≡ false) × (rest.to_client ≡ ts)
    → Kept obj (if broken then chunk ∷ [] else chunk ∷ ts) (step chunk broken rest obj false)
step-large chunk true rest obj ts large h =
    (refl, λ k. absurd (omega (arith, over obj chunk [] large, k)), λ k. refl)
step-large chunk false rest obj ts large h = (
  ap (λ l. chunk ∷ l) h.1,
  λ k. absurd (omega (arith, over obj chunk (joined ts) large, k)),
  λ k. h.0,
)

step-small :
    (chunk : Text) (broken : Bool) (rest : Forwarded) (obj : Text) (ts : List Text)
    → length (obj ++ chunk) ≤ max_object_size
    → Kept (obj ++ chunk) ts rest
    → Kept obj
        (if broken then chunk ∷ [] else chunk ∷ ts)
        (step chunk broken rest (obj ++ chunk) true)
step-small chunk true rest obj ts small h =
    rw (append-nil chunk) (refl, λ k. (refl, refl), λ k. absurd (omega (arith, small, k)))
step-small chunk false rest obj ts small h =
    rw (sym (append_assoc obj chunk (joined ts))) (ap (λ l. chunk ∷ l) h.0, h.1, h.2)

-- Once the object did not fit it never does.
forward_loop-false :
    (chunks : List (Text × Sent)) (obj : Text)
    → ((forward_loop chunks obj false).fits_in_cache ≡ false)
      × ((forward_loop chunks obj false).to_client ≡ handled chunks)
unfolding forward_loop
forward_loop-false [] obj = (refl, refl)
forward_loop-false ((chunk, sent) ∷ chunks) obj =
    let n = length obj + length chunk in
    elim (Bool-cases (ltb max_object_size n)) [
      | inl large ↦ rw large (
          step-false chunk (is_broken sent) (forward_loop chunks obj false) obj (handled chunks)
            (forward_loop-false chunks obj))
      | inr small ↦ rw small (
          step-false chunk (is_broken sent) (forward_loop chunks (obj ++ chunk) false)
            (obj ++ chunk) (handled chunks) (forward_loop-false chunks (obj ++ chunk)))
    ]

small_length :
    (obj chunk : Text)
    → ltb max_object_size (length obj + length chunk) ≡ false
    → length (obj ++ chunk) ≤ max_object_size
small_length obj chunk h = rw (length-append obj chunk) (ground (arith, h))

forward_loop-Kept :
    (chunks : List (Text × Sent)) (obj : Text)
    → length obj ≤ max_object_size
    → Kept obj (handled chunks) (forward_loop chunks obj true)
unfolding forward_loop
forward_loop-Kept [] obj h = (
  refl,
  λ k. (refl, sym (append-nil obj)),
  λ k. absurd (omega (arith, h, k, ap length (append-nil obj))),
)
forward_loop-Kept ((chunk, sent) ∷ chunks) obj h =
    let n = length obj + length chunk in
    elim (Bool-cases (ltb max_object_size n)) [
      | inl large ↦ rw large (
          step-large chunk (is_broken sent) (forward_loop chunks obj false) obj (handled chunks)
            (ltb→lt max_object_size n large) (forward_loop-false chunks obj))
      | inr small ↦ rw small (
          step-small chunk (is_broken sent) (forward_loop chunks (obj ++ chunk) true) obj
            (handled chunks) (small_length obj chunk small)
            (forward_loop-Kept chunks (obj ++ chunk) (small_length obj chunk small)))
    ]

-- `forward` sends the client every chunk up to the first one that meets a broken pipe; if these are
-- at most `MAX_OBJECT_SIZE` bytes they are what it keeps for the cache, else it keeps nothing for
-- it.
pub forward_loop-Forwards :
    (chunks : List (Text × Sent)) → Kept [] (handled chunks) (forward_loop chunks [] true)
forward_loop-Forwards chunks = forward_loop-Kept chunks [] (omega arith)
