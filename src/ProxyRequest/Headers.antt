-- ===== src/ProxyRequest/Headers.antt =====
-- Lab6/proxy.c: the headers that `sendRequest` sends on.
use model_lib.Prelude.{
  Bool, true, false, if◌then◌else◌, ℕ, ◌≡◌, refl, sym, ◌∙◌, ap, List, [], ◌∷◌, ◌++◌, map, arith,
  bytes, if◌then◌else◌, false, length, take, length-append, Bool-cases, inl, inr,
}
use model_lib.Prelude.Int.{ℤ, pos}
use model_lib.Parse.{Text, same_text}
use model_lib.ProxyRequest.{
  Header, header, Parser, Server, returned, is_own, header_line, Leftover, written, send_each,
  line_round, send_headers, send_request, request_line, user_agent_hdr, connection_hdr,
  proxy_connection_hdr, crlf,
}
use mathlib.Core.List.{append_assoc}

-- The parser reads each header from its line and then the empty line, from the state `p` on.
abbrev pub Feeds {ℓ} : {P : Type ℓ} → Parser P → P → List Header → Type ℓ
Feeds {P} parser p [] =
    (p1 : P) × (p2 : P) × (parser.parse_line p crlf ≡ (p1, header))
    × (parser.next_headers p1 ≡ ([], p2))
Feeds {P} parser p (h ∷ hs) =
    (p1 : P) × (p2 : P) × (parser.parse_line p (header_line h) ≡ (p1, header))
    × (parser.next_headers p1 ≡ (h ∷ [], p2))
    × Feeds parser p2 hs

-- The names of the headers that the proxy sends itself.
abbrev pub own_names : List Text
own_names = bytes "User-Agent" ∷ bytes "Connection" ∷ bytes "Proxy-Connection" ∷ []

abbrev pub member : Text → List Text → Bool
member name [] = false
member name (n ∷ ns) = if same_text name n then true else member name ns

is_own-member : (name : Text) → is_own name ≡ member name own_names
is_own-member name = ground arith

-- The lines of the headers that are not the proxy's own.
abbrev pub others : List Header → List Text
others [] = []
others (h ∷ hs) = if member h.name own_names then others hs else header_line h ∷ others hs

take-prefix : (xs ys : Text) → take (length xs) (xs ++ ys) ≡ xs
take-prefix [] ys = refl
take-prefix (x ∷ xs) ys = ap (λ s. x ∷ s) (take-prefix xs ys)

send_each-others :
    (stale : List Header → Text) (h : Header) (rest : List Text)
    → send_each (length (header_line h)) stale (h ∷ []) ++ rest
      ≡ (if member h.name own_names then rest else header_line h ∷ rest)
unfolding send_each
send_each-others stale h rest = elim (Bool-cases (is_own h.name)) [
  | inl own ↦ rw (own, sym (is_own-member h.name) ∙ own) refl
  | inr other ↦
      rw (other, sym (is_own-member h.name) ∙ other, take-prefix (header_line h) (0 ∷ stale []))
        refl
]

headers_step {ℓ} :
    {P : Type ℓ} (parser : Parser P) (stale : Leftover) (fd : ℤ) (p : P) (line : Text)
    (lines : List Text) (h : Header) (hs : List Header) (p1 p2 : P)
    → parser.parse_line p line ≡ (p1, header)
    → parser.next_headers p1 ≡ (h ∷ hs, p2)
    → send_headers parser stale fd (line ∷ lines) p ≡ (
      send_each (length line) (stale lines) (h ∷ hs) ++ (send_headers parser stale fd lines p2).0,
      (send_headers parser stale fd lines p2).1,
    )
unfolding send_headers line_round
headers_step parser stale fd p line lines h hs p1 p2 e e' = rw (e, e') refl

send_headers-others {ℓ} :
    {P : Type ℓ} (parser : Parser P) (stale : Leftover) (fd : ℤ) (p : P) (hs : List Header)
    (more : List Text)
    → Feeds parser p hs
    → send_headers parser stale fd (map header_line hs ++ crlf ∷ more) p
      ≡ (others hs ++ crlf ∷ [], returned fd)
unfolding send_headers line_round
send_headers-others parser stale fd p [] more f = rw (f.2, f.3) refl
send_headers-others parser stale fd p (h ∷ hs) more f =
    rw
      (
        headers_step parser stale fd p (header_line h) (map header_line hs ++ crlf ∷ more) h [] f.0
            f.1 f.2 f.3,
        send_headers-others parser stale fd f.1 hs more f.4,
        sym (
            append_assoc
              (send_each (length (header_line h)) (stale (map header_line hs ++ crlf ∷ more))
                (h ∷ []))
              (others hs) (crlf ∷ [])),
        send_each-others (stale (map header_line hs ++ crlf ∷ more)) h (others hs),
      )
      refl

-- Where the server is reached, the client sends its headers line by line in the written form, and
-- the parser reads each of them, `sendRequest` sends the request line, the three headers of the
-- proxy, all headers of the client but those three, and an empty line, and returns the descriptor
-- of the server.
pub send_request-others {ℓ} :
    {P : Type ℓ} (parser : Parser P) (stale : Leftover) (server : Server) (uri : Text) (p : P)
    (hs : List Header) (more : List Text) (n : ℕ)
    → Feeds parser p hs
    → server.fd ≡ pos n
    → server.broken ≡ false
    → send_request parser stale server uri (map header_line hs ++ crlf ∷ more) p ≡ (
      request_line uri
          ∷ user_agent_hdr
          ∷ connection_hdr
          ∷ proxy_connection_hdr
          ∷ (others hs ++ crlf ∷ []),
      returned (pos n),
    )
unfolding send_request
send_request-others parser stale server uri p hs more n f e b =
    rw (e, b, send_headers-others parser stale (pos n) p hs more f) refl

-- The text of a header without its line feed.
abbrev pub unended : Header → Text
unended h = h.name ++ bytes ": " ++ h.value ++ b'\r' ∷ []

length-unended : (h : Header) → length (h.name ++ bytes ":" ++ h.value ++ crlf) ≡ length (unended h)
length-unended h =
    rw
      (
        length-append (h.name ++ bytes ":" ++ h.value) crlf,
        length-append (h.name ++ bytes ":") h.value,
        length-append h.name (bytes ":"),
        length-append (h.name ++ bytes ": " ++ h.value) (b'\r' ∷ []),
        length-append (h.name ++ bytes ": ") h.value,
        length-append h.name (bytes ": "),
      )
      (omega arith)

ended : (stale : Text) (h : Header) → header_line h ++ 0 ∷ stale ≡ unended h ++ b'\n' ∷ 0 ∷ stale
ended stale h = simp append_assoc

written-unended :
    (stale : Text) (h : Header)
    → written (length (h.name ++ bytes ":" ++ h.value ++ crlf)) stale h ≡ unended h
written-unended stale h =
    ap (λ n. take n (header_line h ++ 0 ∷ stale)) (length-unended h)
    ∙ ap (λ t. take (length (unended h)) t) (ended stale h)
    ∙ take-prefix (unended h) (b'\n' ∷ 0 ∷ stale)

-- A header of the client, not one of the three, without a space behind the colon is sent without
-- its line feed.
pub send_each-unended :
    (stale : List Header → Text) (h : Header)
    → member h.name own_names ≡ false
    → send_each (length (h.name ++ bytes ":" ++ h.value ++ crlf)) stale (h ∷ []) ≡ unended h ∷ []
unfolding send_each
send_each-unended stale h own =
    rw (is_own-member h.name ∙ own) (ap (λ t. t ∷ []) (written-unended (stale []) h))
