-- ===== src/Effectors/SafeHttp/Capped.antt =====
-- Reading up to the cap gives the start of the body.
use mathlib.Core.List.{append-nil, append_assoc}
use johnny.Prelude.{
  arith, ℕ, suc, zero, ◌≡◌, refl, ap, ◌≤◌, ◌<◌, Bool, true, false, inl, inr, List, [], ◌∷◌, ◌++◌,
  length, take, leb, leb→le, length-append, length-take, Bool-cases, String,
}
use johnny.Prelude.Exec.{Outcome, returned}
use johnny.Effectors.SafeHttp.{
  Stream, ended, chunk, broken, Network, SafeFetcher, read_from, read_capped,
}

-- The bytes of a body that arrives whole
abbrev pub contents : Stream → List ℕ
contents ended = []
contents (chunk bytes rest) = bytes ++ contents rest
contents (broken e) = []

abbrev pub IsWhole : Stream → Type 0
IsWhole ended = Unit
IsWhole (chunk bytes rest) = IsWhole rest
IsWhole (broken e) = ◌≡◌ {A = Bool} true false

take-append : {A : Type 0} (n : ℕ) (xs ys : List A) → n ≤ length xs → take n (xs ++ ys) ≡ take n xs
take-append zero xs ys h = refl
take-append (suc n) [] ys h = absurd (omega arith)
take-append (suc n) (x ∷ xs) ys h = ap (λ zs. x ∷ zs) (take-append n xs ys (omega arith))

module _ (net : Network) (fetcher : SafeFetcher) where
  abbrev start : List ℕ → Outcome String (List ℕ × Bool)
  start bytes = returned (take fetcher.max_bytes bytes, leb fetcher.max_bytes (length bytes))

  read_from-start :
      (got : List ℕ) (stream : Stream)
      → IsWhole stream
      → length got < fetcher.max_bytes
      → read_from net fetcher got stream ≡ start (got ++ contents stream)
  unfolding read_from
  read_from-start got ended whole h = rw (append-nil got) (ground (arith, h))
  read_from-start got (broken e) whole h = cc whole
  read_from-start got (chunk bytes rest) whole h =
      elim (Bool-cases (leb fetcher.max_bytes (length (got ++ bytes)))) [
        | inl e ↦
            let full = leb→le fetcher.max_bytes (length (got ++ bytes)) e in
            rw e (
              rw (← append_assoc got bytes (contents rest)) (
                rw (take-append fetcher.max_bytes (got ++ bytes) (contents rest) full)
                  (ground (arith, full, length-append (got ++ bytes) (contents rest)))))
        | inr e ↦ rw e (
            rw (← append_assoc got bytes (contents rest))
              (read_from-start (got ++ bytes) rest whole (ground (arith, e))))
      ]

  -- Of a body that arrives whole, with a cap above zero, what is read is its first `max_bytes` bytes,
  -- and it counts as truncated exactly when the body has as many as the cap.
  pub read_capped-start :
      (stream : Stream)
      → IsWhole stream
      → 0 < fetcher.max_bytes
      → read_capped net fetcher stream
        ≡ returned (
          take fetcher.max_bytes (contents stream),
          leb fetcher.max_bytes (length (contents stream)),
        )
  unfolding read_capped
  read_capped-start stream whole h = read_from-start [] stream whole h

  -- Also of a body that breaks off, no more than the cap is returned.
  pub read_from-bounded :
      (got : List ℕ) (stream : Stream) (read : List ℕ × Bool)
      → read_from net fetcher got stream ≡ returned read
      → length read.0 ≤ fetcher.max_bytes
  unfolding read_from
  read_from-bounded got ended read h = ground (arith, h, length-take fetcher.max_bytes got)
  read_from-bounded got (broken e) read h = cc h
  read_from-bounded got (chunk bytes rest) read h =
      elim (Bool-cases (leb fetcher.max_bytes (length (got ++ bytes)))) [
        | inl e ↦ ground (arith, rw e at h, length-take fetcher.max_bytes (got ++ bytes))
        | inr e ↦ read_from-bounded (got ++ bytes) rest read (rw e at h)
      ]
