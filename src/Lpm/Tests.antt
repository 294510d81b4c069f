-- ===== src/Lpm/Tests.antt =====
-- The routing table of `main`, and the theorems at it.
use aether_plane.Base.{◌≡◌, refl, some, List, [], ◌∷◌, arith, length, u64}
use aether_plane.Lpm.{RouteEntry, init, bit, insert_from, insert_route, lookup_from, lookup}
use mathlib.Core.Option
use aether_plane.Lpm.Table.{Op, insert, best}
use aether_plane.Lpm.Refine.{step, run, table_after, run-lookup}

abbrev routes : List Op
routes =
    insert 0xC0A80100 24 0xC0A80101 2 10
    ∷ insert 0x0A000000 8 0x0A000001 1 20
    ∷ insert 0 0 0xC0A801FE 1 100
    ∷ []

abbrev default_route : RouteEntry
default_route = record {
  prefix = 0;
  prefix_len = 0;
  next_hop_ip = 0xC0A801FE;
  egress_ifindex = 1;
  metric = 100;
}

lookups :
    (Option.map (λ (e : RouteEntry). e.metric) (lookup (run init routes) 0xC0A80137) ≡ some 10)
    × (lookup (run init routes) 0x08080808 ≡ some default_route)
    × ((run init (insert 0 33 0 0 0 ∷ routes)).route_count ≡ 3)
unfolding init run step insert_route insert_from lookup lookup_from bit
lookups = (refl, refl, refl)

run-lookup_example :
    (lookup (run init routes) 0x0A000005 ≡ best 0x0A000005 (table_after [] routes))
    × ((run init routes).route_count ≡ u64 (length (table_after [] routes)))
run-lookup_example = run-lookup routes 0x0A000005 (omega arith) (omega arith)
