-- ===== src/Core/Identity.antt =====
-- backend/apps/core/request_identity.py: the address of a client behind trusted proxies.
pub mod Spoof
mod Tests
use mathlib.Core.List.{reverse}
use umclick.Common.{
  ℕ, ◌==◌, if◌then◌else◌, Bool, true, false, not, Option, none, some, List, [], ◌∷◌, map, any, keep,
}
use umclick.Quiz.Model.{Text}
use umclick.Session.Access.{strip}

-- What stands outside: `ipaddress` with its addresses and networks as numbers, `str.isspace`, and the
-- setting `TRUSTED_PROXY_CIDRS`.
pub record Addresses : Type 0 where
  pub ip_address : Text → Option ℕ
  pub ip_network : Text → Option ℕ
  pub contains : (network address : ℕ) → Bool
  pub is_space : ℕ → Bool
  pub trusted_proxy_cidrs : List Text

abbrev pub parsed_networks : Addresses → List Text → List ℕ
parsed_networks a [] = []
parsed_networks a (value ∷ values) =
    let rest = parsed_networks a values in
    elim (a.ip_network value) [ none ↦ rest | some network ↦ network ∷ rest ]

-- `_trusted_proxy_networks`
abbrev pub trusted_proxy_networks : Addresses → List ℕ
trusted_proxy_networks a = parsed_networks a a.trusted_proxy_cidrs

-- `_is_trusted`
abbrev pub is_trusted : Addresses → ℕ → Bool
is_trusted a address = any (λ network. a.contains network address) (trusted_proxy_networks a)

abbrev pub prepend : ℕ → List Text → List Text
prepend c [] = (c ∷ []) ∷ []
prepend c (word ∷ words) = (c ∷ word) ∷ words

-- `str.split(',')`
abbrev pub split_commas : Text → List Text
split_commas [] = [] ∷ []
split_commas (c ∷ cs) =
    let rest = split_commas cs in if c == b',' then [] ∷ rest else prepend c rest

abbrev pub is_filled : Text → Bool
is_filled [] = false
is_filled (c ∷ cs) = true

-- `[value.strip() for value in forwarded.split(',') if value.strip()]`
abbrev pub header_values : Addresses → Text → List Text
header_values a forwarded = keep is_filled (map (strip a.is_space) (split_commas forwarded))

-- The values of `X-Forwarded-For`, or else that of `X-Real-IP`.
abbrev pub or_real_ip : List Text → Text → List Text
or_real_ip [] [] = []
or_real_ip [] (c ∷ cs) = (c ∷ cs) ∷ []
or_real_ip (value ∷ values) real_ip = value ∷ values

-- The loop over the values, from the right.
abbrev pub walk : Addresses → (peer current : ℕ) → List Text → ℕ
walk a peer current [] = current
walk a peer current (value ∷ values) =
    if not (is_trusted a current)
    then current
    else elim (a.ip_address value) [ none ↦ peer | some address ↦ walk a peer address values ]

abbrev pub of_peer : Addresses → Text → Text → Option ℕ → Option ℕ
of_peer a forwarded real_ip none = none
of_peer a forwarded real_ip (some peer) =
    if not (is_trusted a peer)
    then some peer
    else some (
        walk a peer peer
          (reverse (or_real_ip (header_values a forwarded) (strip a.is_space real_ip))))

-- `_canonical_client_address`; `none` is `'unknown'`.
unfoldable pub canonical_client_address : Addresses → (raw_peer forwarded real_ip : Text) → Option ℕ
canonical_client_address a raw_peer forwarded real_ip =
    of_peer a forwarded real_ip (a.ip_address raw_peer)
