-- ===== src/Core/Identity/Tests.antt =====
-- A client behind one proxy.
use umclick.Common.{◌==◌, ◌≡◌, refl, some, [], ◌∷◌, ◌++◌, length}
use umclick.Quiz.Model.{Text}
use umclick.Core.Identity.{Addresses, canonical_client_address}
use umclick.Core.Identity.Spoof.{canonical_client_address-client}

-- A text of n letters is the address n; the only trusted proxy is 2.
abbrev addresses : Addresses
addresses = record {
  ip_address = λ text. some (length text);
  ip_network = λ text. some (length text);
  contains = λ network address. network == address;
  is_space = λ c. c == b' ';
  trusted_proxy_cidrs = (b'x' ∷ b'x' ∷ []) ∷ [];
}

abbrev proxy : Text
proxy = b'x' ∷ b'x' ∷ []

abbrev client : Text
client = b'a' ∷ b'a' ∷ b'a' ∷ []

canonical_client_address-client_example :
    (canonical_client_address addresses proxy
        ((b'z' ∷ []) ++ b',' ∷ (client ++ b',' ∷ b' ' ∷ proxy))
        []
      ≡ some 3)
    × (canonical_client_address addresses proxy (client ++ b',' ∷ b' ' ∷ proxy) [] ≡ some 3)
canonical_client_address-client_example =
    canonical_client_address-client addresses proxy (b'z' ∷ []) (client ++ b',' ∷ b' ' ∷ proxy) [] 2
      3 client (proxy ∷ []) refl refl refl
      (record { address = 2; has_address = refl; trusted = refl }, tt) refl refl
