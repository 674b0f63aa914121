-- ===== src/UdpTracker/Url.antt =====
-- What src/udp_tracker.cpp takes from the address of a tracker.
use mathlib.Core.List.{append_assoc, append-nil}
use simpletorrent.Base.{
  ℕ, ◌+◌, ◌-◌, ◌≡◌, sym, ap, ◌∙◌, subst, true, none, some, List, [], ◌∷◌, ◌++◌, length, ok, arith,
  length-append,
}
use simpletorrent.Text.{find_from, find_text, starts_with, substr}
use simpletorrent.Text.Find.{
  lacks, find_from-append, find_from-lacks, substr-middle, substr_from-behind,
}
use simpletorrent.UdpTracker.{scheme_end, up_to, extract_host, extract_port}

find_text_url :
    (scheme rest : List ℕ) (pos : ℕ)
    → lacks 58 scheme ≡ true
    → find_text scheme_end (scheme ++ (scheme_end ++ rest)) pos ≡ some (pos + length scheme)
unfolding find_text starts_with
find_text_url [] rest pos h = ground arith
find_text_url (c ∷ scheme) rest pos h = ground (arith, find_text_url scheme rest (pos + 1))

-- A path is empty or begins with a slash.
abbrev pub IsPath : List ℕ → Type 0
IsPath [] = Unit {0}
IsPath (c ∷ path) = c ≡ 47

up_to-path :
    (front port path : List ℕ) (k : ℕ)
    → length front ≡ k
    → lacks 47 port ≡ true
    → IsPath path
    → up_to k (find_from 47 k (front ++ (port ++ path))) (front ++ (port ++ path)) ≡ ok port
unfolding up_to
up_to-path front port [] k h l is =
    let all : find_from 47 k (front ++ (port ++ [])) ≡ none =
      rw (append-nil port) (find_from-lacks front port 47 k h l) in
    rw (all, append-nil port) (substr_from-behind front port k h)
up_to-path front port (c ∷ path) k h l is =
    let here : find_from 47 k (front ++ (port ++ (c ∷ path))) ≡ some (k + length port) =
      subst (λ (d : ℕ). find_from 47 k (front ++ (port ++ (d ∷ path))) ≡ some (k + length port))
        (sym is) (find_from-append front port path 47 k h l) in
    let size : length port ≡ k + length port - k = omega arith in
    rw here (substr-middle front port (c ∷ path) k (k + length port - k) h size)

module _ (scheme host port path : List ℕ) where
  -- `scheme://host:port` and a path.
  abbrev pub url_of : List ℕ
  url_of = scheme ++ (scheme_end ++ (host ++ (58 ∷ (port ++ path))))

  module _ (named : lacks 58 scheme ≡ true) (plain : lacks 58 host ≡ true) where
    front : List ℕ
    front = scheme ++ scheme_end

    url_front : url_of ≡ front ++ (host ++ (58 ∷ (port ++ path)))
    unfolding front
    url_front = sym (append_assoc scheme scheme_end (host ++ (58 ∷ (port ++ path))))

    length-front : length front ≡ length scheme + 3
    unfolding front
    length-front = length-append scheme scheme_end

    found_at : find_text scheme_end url_of 0 ≡ some (length scheme)
    found_at = find_text_url scheme (host ++ (58 ∷ (port ++ path))) 0 named ∙ ap some (omega arith)

    colon_at : find_from 58 (length scheme + 3) url_of ≡ some (length scheme + 3 + length host)
    colon_at =
        rw url_front
          (find_from-append front host (port ++ path) 58 (length scheme + 3) length-front plain)

    extract_host-url : extract_host url_of ≡ ok host
    unfolding extract_host up_to
    extract_host-url =
        let size : length host ≡ length scheme + 3 + length host - (length scheme + 3) =
          omega arith in
        let taken =
          substr-middle front host (58 ∷ (port ++ path)) (length scheme + 3)
            (length scheme + 3 + length host - (length scheme + 3)) length-front size in
        let all : substr (length scheme + 3) (length scheme + 3 + length host - (length scheme + 3))
              url_of
            ≡ ok host =
          rw url_front taken in
        rw found_at (rw colon_at all)

    extract_port-url : lacks 47 port ≡ true → IsPath path → extract_port url_of ≡ ok port
    unfolding extract_port
    extract_port-url digits is =
        let behind = front ++ (host ++ (58 ∷ [])) in
        let shape : url_of ≡ behind ++ (port ++ path) =
          url_front
          ∙ ap (◌++◌ front) (sym (append_assoc host (58 ∷ []) (port ++ path)))
          ∙ sym (append_assoc front (host ++ (58 ∷ [])) (port ++ path)) in
        let size : length behind ≡ length scheme + 3 + length host + 1 = omega (
          arith,
          length-append front (host ++ (58 ∷ [])),
          length-append host (58 ∷ []),
          length-front,
        ) in
        let k = length scheme + 3 + length host + 1 in
        let taken : up_to k (find_from 47 k url_of) url_of ≡ ok port =
          rw shape (up_to-path behind port path k size digits is) in
        rw found_at (rw colon_at taken)

    -- From an address of the form `scheme://host:port`, with a path that begins with a slash or
    -- without one, `extract_host` takes the host and `extract_port` the port, if neither the scheme nor
    -- the host has a colon and the port has no slash.
    pub extract-url :
        lacks 47 port ≡ true
        → IsPath path
        → (extract_host url_of ≡ ok host) × (extract_port url_of ≡ ok port)
    extract-url digits is = (extract_host-url, extract_port-url digits is)
