-- ===== src/ProxyRequest/Path.antt =====
-- Lab6/proxy.c: the request line that `sendRequest` makes of a URI.
use model_lib.Prelude.{ℕ, ◌≡◌, ◌≢◌, refl, ◌∙◌, [], ◌∷◌, ◌++◌, arith, bytes}
use model_lib.Parse.{Text}
use model_lib.ProxyRequest.{skip_host, request_line}

-- A text with no slash.
abbrev pub NoSlash : Text → Type 0
NoSlash [] = Unit
NoSlash (c ∷ s) = (c ≢ b'/') × NoSlash s

-- A path is empty or begins with a slash.
abbrev pub IsPath : Text → Type 0
IsPath [] = Unit
IsPath (c ∷ s) = c ≡ b'/'

skip_host-NoSlash : (cnt : ℕ) (s t : Text) → NoSlash s → skip_host cnt (s ++ t) ≡ skip_host cnt t
unfolding skip_host
skip_host-NoSlash cnt [] t n = refl
skip_host-NoSlash cnt (c ∷ s) t n = ground (arith, skip_host-NoSlash cnt s t n.1, n.0)

skip_host-IsPath : (path : Text) → IsPath path → skip_host 2 path ≡ path
unfolding skip_host
skip_host-IsPath [] h = refl
skip_host-IsPath (c ∷ s) h = ground (arith, h)

-- The URI of a scheme, a host with its port, and a path.
abbrev pub absolute : (scheme host path : Text) → Text
absolute scheme host path = scheme ++ (b'/' ∷ b'/' ∷ (host ++ path))

slashes :
    (host path : Text)
    → NoSlash host
    → IsPath path
    → skip_host 0 (b'/' ∷ b'/' ∷ (host ++ path)) ≡ path
unfolding skip_host
slashes host path b p = skip_host-NoSlash 2 host path b ∙ skip_host-IsPath path p

skip_host-absolute :
    (scheme host path : Text)
    → NoSlash scheme
    → NoSlash host
    → IsPath path
    → skip_host 0 (absolute scheme host path) ≡ path
skip_host-absolute scheme host path a b p =
    skip_host-NoSlash 0 scheme (b'/' ∷ b'/' ∷ (host ++ path)) a ∙ slashes host path b p

-- For the URI of a scheme, a host and a path, where the scheme and the host have no slash, the
-- request line asks for the path.
pub request_line-absolute :
    (scheme host path : Text)
    → NoSlash scheme
    → NoSlash host
    → IsPath path
    → request_line (absolute scheme host path) ≡ bytes "GET " ++ path ++ bytes " HTTP/1.0\r\n"
unfolding request_line
request_line-absolute scheme host path a b p = rw (skip_host-absolute scheme host path a b p) refl
