-- ===== src/Tests/Unmapping.antt =====
-- src/page_table.c: a page that is mapped and unmapped again, and the number of nodes on the way.
use simulador_memoria_virtua.Base.{◌≡◌, refl, none, some, success, failure}
use simulador_memoria_virtua.Address.{level_index}
use simulador_memoria_virtua.PageTable.{
  create, lookup, lookup_with_levels, lookup_loop, map, ensure_private_root, ensure_private_child,
  map_loop, map_step, map_leaf,
}
use simulador_memoria_virtua.PageTable.Unmap.{unmap, path_loop, unmap_leaf, prune}
use simulador_memoria_virtua.PageTable.Objects.{
  Store, request, node_create, entry_create, entry_release,
}
use simulador_memoria_virtua.Tests.PageTables.{one_page}

abbrev unmapped : Store
unmapped = (unmap one_page (some 0) 4096).0

unmapping :
    ((unmap one_page (some 0) 4096).1 ≡ success)
    × (lookup unmapped (some 0) 4096 ≡ none)
    × ((unmapped.nodes 0).active_entries ≡ 0)
    × ((unmap unmapped (some 0) 4096).1 ≡ failure)
unfolding create request node_create map ensure_private_root map_loop map_step map_leaf entry_create
    lookup_with_levels lookup lookup_loop level_index unmap path_loop ensure_private_child
    unmap_leaf prune entry_release
unmapping = (refl, refl, refl, refl)
