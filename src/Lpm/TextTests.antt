-- ===== src/Lpm/TextTests.antt =====
-- Prefixes as text, and the theorem at a length that is cut off.
use aether_plane.Base.{ℕ, ◌≡◌, refl, Option, some, List, [], ◌∷◌, true, false, arith}
use aether_plane.Base.Text.{decimal}
use aether_plane.Base.Result.{ok, throws, invalid_argument, out_of_range}
use aether_plane.Lpm.{init, insert_route}
use aether_plane.Lpm.Cidr.{stoi, ip_from_string, cidr_text, insert_cidr, insert_cidr-insert_route}

-- `10.0.0.0`
abbrev ten : List ℕ
ten = 49 ∷ 48 ∷ 46 ∷ 48 ∷ 46 ∷ 48 ∷ 46 ∷ 48 ∷ []

abbrev pton : List ℕ → Option ℕ
pton text = some 0x0A000000

-- `8 and more`, ` -1`, `x`, ``, `9999999999`
stoi_tests :
    (stoi (56 ∷ 32 ∷ 97 ∷ 110 ∷ 100 ∷ 32 ∷ 109 ∷ 111 ∷ 114 ∷ 101 ∷ []) ≡ ok (false, 8))
    × (stoi (32 ∷ 45 ∷ 49 ∷ []) ≡ ok (true, 1))
    × (stoi (120 ∷ []) ≡ throws invalid_argument)
    × (stoi [] ≡ throws invalid_argument)
    × (stoi (57 ∷ 57 ∷ 57 ∷ 57 ∷ 57 ∷ 57 ∷ 57 ∷ 57 ∷ 57 ∷ 57 ∷ []) ≡ throws out_of_range)
unfolding stoi
stoi_tests = (refl, refl, refl, refl, refl)

-- `10.0.0.0/256` is written so.
ten_256 : cidr_text ten (some 256) ≡ 49 ∷ 48 ∷ 46 ∷ 48 ∷ 46 ∷ 48 ∷ 46 ∷ 48 ∷ 47 ∷ 50 ∷ 53 ∷ 54 ∷ []
unfolding decimal
ten_256 = refl

-- The length 256 becomes 0: the default route.
insert_cidr-insert_route_example :
    insert_cidr pton init (cidr_text ten (some 256)) ten 1 20
    ≡ ok (insert_route init (ip_from_string pton ten) 0 (ip_from_string pton ten) 1 20)
insert_cidr-insert_route_example =
    insert_cidr-insert_route pton init ten ten (some 256) 1 20
      (refl, (refl, (refl, (refl, (refl, (refl, (refl, (refl, tt)))))))) (omega arith)
