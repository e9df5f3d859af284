-- ===== src/Core/Identity/Spoof.antt =====
-- What a client writes into the headers does not change its address.
use mathlib.Core.List.{reverse, reverse_aux-append as aux_append, reverse_aux-eq}
use umclick.Common.{
  ℕ, ◌==◌, ◌≡◌, refl, ap, ◌∙◌, true, false, some, List, [], ◌∷◌, ◌++◌, map, keep, All,
  All-reverse_aux, keep-append, Bool-cases, inl, inr,
}
use umclick.Quiz.Model.{Text}
use umclick.Session.Access.{strip}
use umclick.Core.Identity.{
  Addresses, is_trusted, prepend, split_commas, is_filled, header_values, walk, of_peer,
  canonical_client_address,
}

-- A text is split into one word at least.
split_commas-cons :
    (xs : Text) → (word : Text) × (words : List Text) × (split_commas xs ≡ word ∷ words)
split_commas-cons [] = ([], [], refl)
split_commas-cons (c ∷ cs) = elim (Bool-cases (c == b',')) [
  | inl e ↦ ([], split_commas cs, rw e refl)
  | inr e ↦ let (word, words, s) = split_commas-cons cs in (c ∷ word, words, rw (e, s) refl)
]

prepend-append :
    (c : ℕ) (xs : Text) (rest : List Text)
    → prepend c (split_commas xs ++ rest) ≡ prepend c (split_commas xs) ++ rest
prepend-append c xs rest = let (word, words, s) = split_commas-cons xs in rw s refl

split_commas-append :
    (xs ys : Text) → split_commas (xs ++ b',' ∷ ys) ≡ split_commas xs ++ split_commas ys
split_commas-append [] ys = refl
split_commas-append (c ∷ cs) ys = elim (Bool-cases (c == b',')) [
  | inl e ↦ rw e (ap (λ ws. [] ∷ ws) (split_commas-append cs ys))
  | inr e ↦
      rw e (ap (prepend c) (split_commas-append cs ys) ∙ prepend-append c cs (split_commas ys))
]

map-append {ℓ κ} :
    {A : Type ℓ} {B : Type κ} (f : A → B) (xs ys : List A) → map f (xs ++ ys) ≡ map f xs ++ map f ys
map-append f [] ys = refl
map-append f (x ∷ xs) ys = ap (λ zs. f x ∷ zs) (map-append f xs ys)

module _ (a : Addresses) where
  header_values-append :
      (xs ys : Text) → header_values a (xs ++ b',' ∷ ys) ≡ header_values a xs ++ header_values a ys
  header_values-append xs ys =
      ap (λ ws. keep is_filled (map (strip a.is_space) ws)) (split_commas-append xs ys)
      ∙ ap (keep is_filled) (map-append (strip a.is_space) (split_commas xs) (split_commas ys))
      ∙ keep-append is_filled (map (strip a.is_space) (split_commas xs))
          (map (strip a.is_space) (split_commas ys))

  -- The text of a trusted proxy.
  pub record TrustedProxy (value : Text) : Type 0 where
    pub address : ℕ
    pub has_address : a.ip_address value ≡ some address
    pub trusted : is_trusted a address ≡ true

  walk-client :
      (peer current client : ℕ) (value : Text) (proxies further : List Text)
      → is_trusted a current ≡ true
      → All TrustedProxy proxies
      → a.ip_address value ≡ some client
      → is_trusted a client ≡ false
      → walk a peer current (proxies ++ value ∷ further) ≡ client
  walk-client peer current client value [] further ht hp hv hc = rw (hv, ht) (stopped further)
    where
      stopped : (further : List Text) → walk a peer client further ≡ client
      stopped [] = refl
      stopped (v ∷ vs) = rw hc refl
  walk-client peer current client value (proxy ∷ proxies) further ht hp hv hc =
      rw (hp.0.has_address, ht)
        (walk-client peer hp.0.address client value proxies further hp.0.trusted hp.1 hv hc)

  -- From a peer that is a trusted proxy, with a header whose last values are an address of a client
  -- that is no trusted proxy and then any trusted proxies, the address is that of the client, whatever
  -- stands before these values in the header, and whatever the other header is.
  pub canonical_client_address-client :
      (raw_peer junk written real_ip : Text) (peer client : ℕ) (value : Text) (proxies : List Text)
      → a.ip_address raw_peer ≡ some peer
      → is_trusted a peer ≡ true
      → header_values a written ≡ value ∷ proxies
      → All TrustedProxy proxies
      → a.ip_address value ≡ some client
      → is_trusted a client ≡ false
      → (canonical_client_address a raw_peer (junk ++ b',' ∷ written) real_ip ≡ some client)
        × (canonical_client_address a raw_peer written real_ip ≡ some client)
  unfolding canonical_client_address
  canonical_client_address-client raw_peer junk written real_ip peer client value proxies ep et ew
        hp hv hc =
      (
        found (header_values a junk) (junk ++ b',' ∷ written)
            (header_values-append junk written ∙ ap (λ vs. header_values a junk ++ vs) ew),
        found [] written ew,
      )
    where
      last :
          (further : List Text) → walk a peer peer (reverse (further ++ value ∷ proxies)) ≡ client
      last further =
          ap (walk a peer peer) (
            aux_append further (value ∷ proxies) []
            ∙ reverse_aux-eq proxies (value ∷ reverse further))
          ∙ walk-client peer peer client value (reverse proxies) (reverse further) et
              (All-reverse_aux TrustedProxy proxies [] hp tt) hv hc

      found :
          (further : List Text) (header : Text)
          → header_values a header ≡ further ++ value ∷ proxies
          → of_peer a header real_ip (a.ip_address raw_peer) ≡ some client
      found [] header e = rw (ep, et, e) (ap some (last []))
      found (v ∷ vs) header e = rw (ep, et, e) (ap some (last (v ∷ vs)))
