-- ===== src/Tests/ProxyRequest.antt =====
-- Runs of the proxy's requests of Lab6/proxy.c, with a parser that splits a line at its first colon.
use model_lib.Prelude.{
  ◌≡◌, refl, List, [], ◌∷◌, ◌++◌, map, true, false, bytes, ◌==◌, if◌then◌else◌, none, some, arith,
  length,
}
use model_lib.Prelude.Int.{pos}
use model_lib.Parse.{Text}
use model_lib.ProxyCache.{Object, Cache, ok, write}
use model_lib.ProxyCache.Queue.{IsQueue}
use model_lib.ProxyCache.Find.{address_of}
use model_lib.ProxyRequest.{
  Leftover, Header, request, header, Parser, Server, Request, Sent, complete, broken_pipe, returned,
  crlf, header_line, send_each, send_request, request_line, user_agent_hdr, connection_hdr,
  proxy_connection_hdr, forward_loop, proxy, served,
}
use model_lib.ProxyRequest.Path.{absolute, request_line-absolute}
use model_lib.ProxyRequest.Headers.{Feeds, others, send_request-others, unended, send_each-unended}
use model_lib.ProxyRequest.Forward.{Kept, forward_loop-Forwards}
use model_lib.ProxyRequest.Serve.{proxy-later}

-- The value of a header line: up to the carriage return.
abbrev value_of : Text → Text
value_of [] = []
value_of (c ∷ s) = if c == b'\r' then [] else c ∷ value_of s

-- The name before the colon, and the value one byte behind it.
abbrev split_header : Text → Text → List Header
split_header name [] = []
split_header name (c ∷ []) = []
split_header name (c ∷ d ∷ s) =
    let rest = split_header (name ++ c ∷ []) (d ∷ s) in
    if c == b':' then record { name = name; value = value_of s } ∷ [] else rest

abbrev colon_parser : Parser (List Header)
colon_parser = record {
  parse_line = λ p line. (split_header [] line, header);
  next_headers = λ p. (p, []);
}

abbrev accept : Header
accept = record { name = bytes "Accept"; value = bytes "*" }

abbrev agent : Header
agent = record { name = bytes "User-Agent"; value = bytes "x" }

abbrev reached : Server
reached = record { fd = pos 4; refused = false; broken = false }

request_line-absolute_example :
    request_line (absolute (bytes "h:") (bytes "c") (bytes "/a"))
    ≡ bytes "GET " ++ bytes "/a" ++ bytes " HTTP/1.0\r\n"
request_line-absolute_example =
    request_line-absolute (bytes "h:") (bytes "c") (bytes "/a") (omega arith, (omega arith, tt))
      (omega arith, tt) refl

two_headers : Feeds colon_parser [] (accept ∷ agent ∷ [])
two_headers = (accept ∷ [], [], refl, refl, (agent ∷ [], [], refl, refl, ([], [], refl, refl)))

abbrev no_leftover : Leftover
no_leftover lines hs = []

send_request-others_example :
    send_request colon_parser no_leftover reached
      (bytes "http://cmu.edu/a")
      (map header_line (accept ∷ agent ∷ []) ++ crlf ∷ [])
      []
    ≡ (
      request_line (bytes "http://cmu.edu/a")
          ∷ user_agent_hdr
          ∷ connection_hdr
          ∷ proxy_connection_hdr
          ∷ (others (accept ∷ agent ∷ []) ++ crlf ∷ []),
      returned (pos 4),
    )
send_request-others_example =
    send_request-others colon_parser no_leftover reached (bytes "http://cmu.edu/a") []
      (accept ∷ agent ∷ []) [] 4 two_headers refl refl

-- Of the two headers the first is sent.
others_two : others (accept ∷ agent ∷ []) ≡ header_line accept ∷ []
others_two = refl

send_each-unended_example :
    send_each (length (bytes "Accept:*\r\n")) (no_leftover []) (accept ∷ []) ≡ unended accept ∷ []
send_each-unended_example = send_each-unended (no_leftover []) accept refl

abbrev chunks : List (Text × Sent)
chunks = (1 ∷ 2 ∷ [], complete) ∷ (3 ∷ [], broken_pipe) ∷ (4 ∷ [], complete) ∷ []

forward_loop-Forwards_example : Kept [] ((1 ∷ 2 ∷ []) ∷ (3 ∷ []) ∷ []) (forward_loop chunks [] true)
forward_loop-Forwards_example = forward_loop-Forwards chunks

abbrev empty : Cache
empty = record { cell = λ p. none; head = 0; tail = 0; size = 0 }

empty-IsQueue : IsQueue empty []
empty-IsQueue = record { linked = tt; head = refl; tail = refl; apart = refl; size = refl }

abbrev get : Request
get = record { state = request; method = bytes "GET"; uri = bytes "http://cmu.edu/a" }

abbrev post : Request
post = record { state = request; method = bytes "POST"; uri = bytes "http://cmu.edu/a" }

abbrev requested : List Text
requested =
    request_line (bytes "http://cmu.edu/a")
    ∷ user_agent_hdr
    ∷ connection_hdr
    ∷ proxy_connection_hdr
    ∷ (others (accept ∷ agent ∷ []) ++ crlf ∷ [])

proxy-later_example :
    (c' : Cache) × (c'' : Cache) × (proxy colon_parser no_leftover reached 2 8 get
        (map header_line (accept ∷ agent ∷ []) ++ crlf ∷ [])
        []
        chunks
        empty
      ≡ ok (
          served (record {
            to_client = (1 ∷ 2 ∷ []) ∷ (3 ∷ []) ∷ [];
            to_server = requested;
            cache = c';
            closed = true;
          })))
    × (proxy colon_parser no_leftover reached 2 9 get [] [] [] c'
        ≡ ok (
            served (record {
              to_client = (1 ∷ 2 ∷ 3 ∷ []) ∷ [];
              to_server = [];
              cache = c'';
              closed = true;
            })))
unfolding address_of
proxy-later_example =
    proxy-later colon_parser no_leftover 2 8 get reached
      (map header_line (accept ∷ agent ∷ []) ++ crlf ∷ []) [] chunks empty [] requested 3 refl refl
      empty-IsQueue (omega arith) (omega arith) refl refl (omega arith) (omega arith)
      send_request-others_example 9 reached [] [] []

abbrev cached : Object
cached = record { key = bytes "http://cmu.edu/a"; value = 5 ∷ []; len = 1; next = 0 }

abbrev after_post : Cache
after_post = record {
  cell = write (write (λ p. none) 8 (some cached)) 8 (some cached);
  head = 8;
  tail = 8;
  size = 1;
}
