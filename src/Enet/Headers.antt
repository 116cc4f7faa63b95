-- ===== src/Enet/Headers.antt =====
-- pkg/enet/enet.go: the headers that RemoveProxyHeaders keeps.
use jocasta.Prelude.{ℕ, ◌≡◌, refl, ap, ◌∙◌, Bool, true, not, ◌&&◌, List, [], ◌∷◌, ◌++◌, All}
use jocasta.Go.Io.{Bytes}
use jocasta.Go.Net.{bytes_eq}
use jocasta.Go.Text.{ascii, has_prefix, split_lines, join_lines}
use jocasta.Enet.{contains, headers_loop, lines_loop, is_http, remove_proxy_headers}
use jocasta.Enet.Lines.{IsLine, split_lines-join_lines}
use jocasta.Enet.Kept.{
  names, Distinct, IsFull, Among, headers_loop-body, names_kept, Distinct-kept, kept-Among,
  passes_nothing,
}

remove_lines :
    (head : Bytes) (c : ℕ) (l : Bytes) (ls : List Bytes)
    → is_http head ≡ true
    → split_lines head ≡ (c ∷ l) ∷ ls
    → remove_proxy_headers head ≡ join_lines ((c ∷ l) ∷ headers_loop [] ls)
unfolding remove_proxy_headers lines_loop
remove_lines head c l ls e f = rw (remove_proxy_headers, lines_loop, f, e) refl

-- A request of HTTP as its first line, the lines of its headers, an empty line and a body.
abbrev pub message : Bytes → List Bytes → List Bytes → Bytes
message request hs body = join_lines (request ∷ (hs ++ ([] ∷ body)))

-- RemoveProxyHeaders keeps the first line of a request, the empty line and the body as they are, and
-- between them lines of the headers that were there: of each name that does not begin with PROXY-
-- exactly one line, of no other name any, where names are compared in capitals. The lines have no end of
-- a line inside, and those of the headers are not empty.
pub remove_proxy_headers_lem :
    (request : Bytes) (hs body : List Bytes)
    → IsFull request
    → All IsFull hs
    → All IsLine (request ∷ (hs ++ ([] ∷ body)))
    → is_http (message request hs body) ≡ true
    → (kept : List Bytes) × (remove_proxy_headers (message request hs body)
        ≡ message request kept body)
      × All (Among hs) kept
      × ((k : Bytes)
          → contains k (names kept)
            ≡ (contains k (names hs) && not (has_prefix k (ascii "PROXY-"))))
      × Distinct (names kept)
unfolding bytes_eq
remove_proxy_headers_lem [] hs body r f h e = cc
remove_proxy_headers_lem (c ∷ l) hs body r f h e = (
  headers_loop [] hs,
  remove_lines (message (c ∷ l) hs body) c l (hs ++ ([] ∷ body)) e
        (split_lines-join_lines (c ∷ l) (hs ++ ([] ∷ body)) h)
      ∙ ap (λ (t : List Bytes). join_lines ((c ∷ l) ∷ t)) (headers_loop-body [] hs body f),
  kept-Among [] hs f,
  λ k. names_kept [] hs k f ∙ ap (λ (b : Bool). contains k (names hs) && b) (passes_nothing k),
  Distinct-kept [] hs f,
)
