-- ===== src/Packet/TextTests.antt =====
-- Addresses as text, and the theorem at one of them.
use aether_plane.Base.{◌≡◌, refl, some, [], ◌∷◌, ◌++◌, arith}
use aether_plane.Base.Text.{decimal}
use aether_plane.Packet.Text.{ip_to_string, mac_to_string, read_ip, read_ip-ip_to_string}

-- `192.168.1.7` and `00:1a:2b:3c:4d:5e`
text_tests :
    (ip_to_string 0xC0A80107 ≡ 49 ∷ 57 ∷ 50 ∷ 46 ∷ 49 ∷ 54 ∷ 56 ∷ 46 ∷ 49 ∷ 46 ∷ 55 ∷ [])
    × (mac_to_string (0x00 ∷ 0x1A ∷ 0x2B ∷ 0x3C ∷ 0x4D ∷ 0x5E ∷ [])
        ≡ 48 ∷ 48 ∷ 58 ∷ 49 ∷ 97 ∷ 58 ∷ 50 ∷ 98 ∷ 58 ∷ 51 ∷ 99 ∷ 58 ∷ 52 ∷ 100 ∷ 58 ∷ 53 ∷ 101 ∷ [])
unfolding ip_to_string mac_to_string decimal
text_tests = (refl, refl)

-- With `:80` behind it.
read_ip-ip_to_string_example :
    read_ip (ip_to_string 0xC0A80107 ++ (58 ∷ 56 ∷ 48 ∷ [])) ≡ some (0xC0A80107, 58 ∷ 56 ∷ 48 ∷ [])
read_ip-ip_to_string_example =
    read_ip-ip_to_string 0xC0A80107 (58 ∷ 56 ∷ 48 ∷ []) (omega arith) refl
