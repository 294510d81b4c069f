-- ===== src/Lpm/Cidr.antt =====
-- The overloads of src/core/lpm_trie.cpp that take text: `insert_route` of a CIDR prefix, `lookup` and the
-- conversion of addresses. Text is a list of character codes.
use aether_plane.Base.{
  ℕ, ◌-◌, ◌%◌, ◌^◌, ◌<◌, ◌≡◌, refl, ap, ◌∙◌, sym, Bool, true, false, ◌||◌, ◌&&◌, List, [], ◌∷◌,
  ◌++◌, append-nil, Option, none, some, leb, ltb, ◌==◌, if◌then◌else◌, arith,
}
use aether_plane.Base.Text.{decimal, is_digit, scan, scan-decimal, decimal_head}
use aether_plane.Base.Result.{Result, ok, throws, invalid_argument, out_of_range, ◌>>=◌}
use aether_plane.Lpm.{LpmTrie, RouteEntry, insert_route, lookup}

-- `std::isspace`
abbrev is_space : ℕ → Bool
is_space c = (c == 32) || (leb 9 c && leb c 13)

-- An `int` as its sign and its magnitude.
abbrev pub Signed : Type 0
Signed = Bool × ℕ

abbrev in_range : Bool → ℕ → Result Signed
in_range negative n =
    if ltb (if negative then 2 ^ 31 else 2 ^ 31 - 1) n
    then throws out_of_range
    else ok (negative, n)

abbrev stoi_digits : Bool → List ℕ → Result Signed
stoi_digits negative [] = throws invalid_argument
stoi_digits negative (c ∷ cs) =
    if is_digit c then in_range negative (scan 0 (c ∷ cs)).0 else throws invalid_argument

abbrev stoi_sign : List ℕ → Result Signed
stoi_sign [] = throws invalid_argument
stoi_sign (c ∷ cs) =
    if c == 45
    then stoi_digits true cs
    else if c == 43
    then stoi_digits false cs
    else stoi_digits false (c ∷ cs)

-- `std::stoi`: space, a sign, digits; what follows is not read.
unfoldable pub stoi : List ℕ → Result Signed
stoi [] = throws invalid_argument
stoi (c ∷ cs) = let rest = stoi cs in if is_space c then rest else stoi_sign (c ∷ cs)

-- `static_cast<uint8_t>`
abbrev pub cast_u8 : Signed → ℕ
cast_u8 (negative, n) = if negative then (256 - n % 256) % 256 else n % 256

-- The text before the first `/`, and the text behind it.
unfoldable pub split_slash : List ℕ → List ℕ × Option (List ℕ)
split_slash [] = ([], none)
split_slash (c ∷ cs) =
    let (before, behind) = split_slash cs in if c == 47 then ([], some cs) else (c ∷ before, behind)

-- `(slash_pos == npos) ? 32 : static_cast<uint8_t>(std::stoi(...))`
abbrev pub prefix_len_of : Option (List ℕ) → Result ℕ
prefix_len_of none = ok 32
prefix_len_of (some text) = do n ← stoi text; ok (cast_u8 n)

abbrev or_zero : Option ℕ → ℕ
or_zero none = 0
or_zero (some a) = a

abbrev or_empty : Option (List ℕ) → List ℕ
or_empty none = []
or_empty (some text) = text

-- `inet_pton` gives the address that a text denotes, with `ntohl` done, or fails.
module _ (inet_pton : List ℕ → Option ℕ) where
  unfoldable pub ip_from_string : List ℕ → ℕ
  ip_from_string ip_str = or_zero (inet_pton ip_str)

  unfoldable pub insert_cidr : LpmTrie → List ℕ → List ℕ → ℕ → ℕ → Result (Bool × LpmTrie)
  insert_cidr t cidr next_hop egress_ifindex metric = do
    let parts = split_slash cidr
    prefix_len ← prefix_len_of parts.1
    ok (
        insert_route t (ip_from_string parts.0) prefix_len (ip_from_string next_hop) egress_ifindex
          metric)

  unfoldable pub lookup_text : LpmTrie → List ℕ → Option RouteEntry
  lookup_text t ip_str = lookup t (ip_from_string ip_str)

-- `inet_ntop` of an address in host order; it may fail.
unfoldable pub ip_to_string : (ℕ → Option (List ℕ)) → ℕ → List ℕ
ip_to_string inet_ntop ip = or_empty (inet_ntop ip)

-- A prefix as it is written: an address, and a length behind a `/` unless it is left out.
abbrev pub cidr_text : List ℕ → Option ℕ → List ℕ
cidr_text ip none = ip
cidr_text ip (some len) = ip ++ (47 ∷ decimal len)

abbrev pub written_len : Option ℕ → ℕ
written_len none = 32
written_len (some len) = len % 256

abbrev pub IsLen : Option ℕ → Type 0
IsLen none = Unit {0}
IsLen (some len) = len < 2 ^ 31

abbrev pub HasNoSlash : List ℕ → Type 0
HasNoSlash [] = Unit {0}
HasNoSlash (c ∷ cs) = ((c == 47) ≡ false) × HasNoSlash cs

split_slash-none : (ip : List ℕ) → HasNoSlash ip → split_slash ip ≡ (ip, none)
unfolding split_slash
split_slash-none [] h = refl
split_slash-none (c ∷ cs) h =
    rw h.0 (ap (λ (r : List ℕ × Option (List ℕ)). (c ∷ r.0, r.1)) (split_slash-none cs h.1))

split_slash-some :
    (ip text : List ℕ) → HasNoSlash ip → split_slash (ip ++ (47 ∷ text)) ≡ (ip, some text)
unfolding split_slash
split_slash-some [] text h = refl
split_slash-some (c ∷ cs) text h =
    rw h.0 (ap (λ (r : List ℕ × Option (List ℕ)). (c ∷ r.0, r.1)) (split_slash-some cs text h.1))

stoi-first :
    (c : ℕ) (cs : List ℕ) → is_digit c ≡ true → stoi (c ∷ cs) ≡ in_range false (scan 0 (c ∷ cs)).0
unfolding stoi
stoi-first c cs d = ground arith

stoi-decimal : (n : ℕ) → n < 2 ^ 31 → stoi (decimal n) ≡ ok (false, n)
stoi-decimal n h =
    let (c, cs, e, d) = decimal_head n in
    let value : scan 0 (c ∷ cs) ≡ (n, []) =
      ap (scan 0) (sym e ∙ sym (append-nil (decimal n))) ∙ scan-decimal n [] in
    ap stoi e ∙ stoi-first c cs d ∙ ap (λ (r : ℕ × List ℕ). in_range false r.0) value ∙ ground arith

-- A CIDR text is split and its length read: the overload does what `insert_route` does with the addresses
-- that `ip_from_string` makes of the text before the `/` and of the next hop, and a length that is 32 where
-- none is written and otherwise the number written modulo 256: it is cut off before it is compared with 32.
-- The address text has no `/`, and the number is below 2 ^ 31.
pub insert_cidr-insert_route :
    (inet_pton : List ℕ → Option ℕ) (t : LpmTrie) (ip next_hop : List ℕ) (len : Option ℕ)
    (egress_ifindex metric : ℕ)
    → HasNoSlash ip
    → IsLen len
    → insert_cidr inet_pton t (cidr_text ip len) next_hop egress_ifindex metric
      ≡ ok (
          insert_route t
            (ip_from_string inet_pton ip)
            (written_len len)
            (ip_from_string inet_pton next_hop)
            egress_ifindex
            metric)
unfolding insert_cidr
insert_cidr-insert_route inet_pton t ip next_hop none egress_ifindex metric clean fits =
    rw (split_slash-none ip clean) refl
insert_cidr-insert_route inet_pton t ip next_hop (some len) egress_ifindex metric clean fits =
    rw (split_slash-some ip (decimal len) clean) (rw (stoi-decimal len fits) refl)
